-- ===== src/Msgs/Parse.antt =====
-- _zdtm_parse_raw_msg of src/zdtm_msgs.c: the raw content of a message of the Zaurus, by its type.
pub mod Decode
use lib_zdtm_sync.Prelude.{ℕ, Option, none, some, List, [], ◌∷◌, if◌then◌else◌}
use lib_zdtm_sync.Prelude.Int.{ℤ, pos, negsuc, nonzero}
use lib_zdtm_sync.Run.{M, Run, ok, fault, spin, pure, defined, ◌>>=◌}
use lib_zdtm_sync.Env.{State}
use lib_zdtm_sync.Platform.{Platform}
use lib_zdtm_sync.Requests.{pointee}
use lib_zdtm_sync.Replies.{
  parse_raw_aay_msg, parse_raw_aig_msg, parse_raw_amg_msg, parse_raw_atg_msg, parse_raw_ang_msg,
  parse_raw_adw_msg,
}
use lib_zdtm_sync.Replies.Adi.{parse_raw_adi_msg}
use lib_zdtm_sync.Replies.Adr.{parse_raw_adr_msg}
use lib_zdtm_sync.Replies.Asy.{parse_raw_asy_msg}
use lib_zdtm_sync.Message.{
  Content, Msg, is, aay_msg_type, aig_msg_type, amg_msg_type, atg_msg_type, aex_msg_type,
  ang_msg_type, adi_msg_type, asy_msg_type, adr_msg_type, adw_msg_type, as_aay, as_aig, as_amg,
  as_atg, as_ang, as_adi, as_adr, as_asy, as_adw, aay, aig, amg, atg, ang, adi, adr, asy, adw,
}

module _ {W : Type 0} where
  -- Parse into a member of the union; any failure is given the code of the message's type.
  abbrev pub parse_into :
      {A : Type 0}
      → Option A
      → (List ℕ → A → M (State W) (ℤ × A))
      → (A → Content)
      → ℤ
      → Msg
      → M (State W) (ℤ × Msg)
  parse_into member parse store code msg = do
    c ← defined member
    (r, c) ← parse (pointee msg.raw_content) c
    pure (if nonzero r then code else pos 0, record msg { cont = store c })

module _ {W : Type 0} (p : Platform W) where
  unfoldable pub parse_raw_msg : Msg → M (State W) (ℤ × Msg)
  parse_raw_msg m =
      if is aay_msg_type m
      then parse_into (as_aay m.cont) (parse_raw_aay_msg p) aay (negsuc 0) m
      else if is aig_msg_type m
      then parse_into (as_aig m.cont) (parse_raw_aig_msg p) aig (negsuc 1) m
      else if is amg_msg_type m
      then parse_into (as_amg m.cont) (parse_raw_amg_msg p) amg (negsuc 2) m
      else if is atg_msg_type m
      then parse_into (as_atg m.cont) (parse_raw_atg_msg p) atg (negsuc 3) m
      else if is aex_msg_type m
      then pure (pos 0, m)
      else if is ang_msg_type m
      then parse_into (as_ang m.cont) (parse_raw_ang_msg p) ang (negsuc 5) m
      else if is adi_msg_type m
      then parse_into (as_adi m.cont) (parse_raw_adi_msg p) adi (negsuc 6) m
      else if is asy_msg_type m
      then parse_into (as_asy m.cont) (parse_raw_asy_msg p) asy (negsuc 7) m
      else if is adr_msg_type m
      then parse_into (as_adr m.cont) (parse_raw_adr_msg p) adr (negsuc 8) m
      else if is adw_msg_type m
      then parse_into (as_adw m.cont) (parse_raw_adw_msg p) adw (negsuc 9) m
      else pure (negsuc 254, m)
