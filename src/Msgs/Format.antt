-- ===== src/Msgs/Format.antt =====
-- A message that is parsed holds no parameter format, or one with as many entries as it says.
use lib_zdtm_sync.Prelude.{
  ℕ, Bool, if◌then◌else◌, Option, none, some, List, ◌≡◌, true, false, arith,
}
use lib_zdtm_sync.Prelude.Int.{ℤ, pos, negsuc, nonzero}
use lib_zdtm_sync.Run.{M, ok, pure, ◌>>=◌}
use lib_zdtm_sync.Env.{State}
use lib_zdtm_sync.Env.Valid.{IsFormat}
use lib_zdtm_sync.Platform.{Platform}
use lib_zdtm_sync.Contents.{Adi}
use lib_zdtm_sync.Message.{
  Content, Msg, is, zero_msg, aay_msg_type, aig_msg_type, amg_msg_type, atg_msg_type, aex_msg_type,
  ang_msg_type, adi_msg_type, asy_msg_type, adr_msg_type, adw_msg_type, as_aay, as_aig, as_amg,
  as_atg, as_ang, as_adi, as_asy, as_adr, as_adw, aay, aig, amg, atg, ang, adi, asy, adr, adw,
}
use lib_zdtm_sync.Replies.{
  parse_raw_aay_msg, parse_raw_aig_msg, parse_raw_amg_msg, parse_raw_atg_msg, parse_raw_ang_msg,
  parse_raw_adw_msg,
}
use lib_zdtm_sync.Replies.Adi.{parse_raw_adi_msg}
use lib_zdtm_sync.Replies.Adr.{parse_raw_adr_msg}
use lib_zdtm_sync.Replies.Asy.{parse_raw_asy_msg}
use lib_zdtm_sync.Msgs.Parse.{parse_into, parse_raw_msg}
use lib_zdtm_sync.Replies.Format.{parse_raw_adi_msg-IsFormat}

abbrev IsAdi : Option Adi → Type 0
IsAdi none = Unit
IsAdi (some c) = IsFormat c.num_params c.params

unfoldable pub HasFormat : Content → Type 0
HasFormat c = IsAdi (as_adi c)

pub zero_msg-HasFormat : HasFormat zero_msg.cont
unfolding HasFormat IsFormat
zero_msg-HasFormat = ground arith

-- What a code of 0 says of the message.
abbrev pub Formats : {W : Type 0} → M (State W) (ℤ × Msg) → Type 0
Formats {W} f =
    (s t : State W) (r : ℤ × Msg) → f s ≡ ok r t → nonzero r.0 ≡ false → HasFormat r.1.cont

module _ {W : Type 0} where
  pub bind-Formats :
      {A : Type 0} (f : M (State W) A) (g : A → M (State W) (ℤ × Msg))
      → ((a : A) → Formats (g a))
      → Formats (f >>= g)
  bind-Formats f g k s t r e h = grind (arith, k)

  if-Formats :
      (b : Bool) (f g : M (State W) (ℤ × Msg))
      → Formats f
      → Formats g
      → Formats (if b then f else g)
  if-Formats true f g kf kg = kf
  if-Formats false f g kf kg = kg

  parse_into-Formats :
      {A : Type 0} (member : Option A) (parse : List ℕ → A → M (State W) (ℤ × A))
      (store : A → Content) (n : ℕ) (m : Msg)
      → ((b : List ℕ) (c : A) (s t : State W) (r : ℤ × A)
          → parse b c s ≡ ok r t
          → nonzero r.0 ≡ false
          → IsAdi (as_adi (store r.1)))
      → Formats (parse_into member parse store (negsuc n) m)
  unfolding HasFormat
  parse_into-Formats member parse store n m k s t r e h = grind (arith, k)

module _ {W : Type 0} (p : Platform W) where
  pub parse_raw_msg-HasFormat : (m : Msg) → HasFormat m.cont → Formats (parse_raw_msg p m)
  unfolding parse_raw_msg
  parse_raw_msg-HasFormat m k =
      let unchanged : Formats {W = W} (pure (pos 0, m)) = λ s t r e h. grind (arith, k) in
      let unknown : Formats {W = W} (pure (negsuc 254, m)) = λ s t r e h. ground arith in
      if-Formats (is aay_msg_type m) _ _
        (parse_into-Formats (as_aay m.cont) (parse_raw_aay_msg p) aay 0 m (λ b c s t r e h. tt))
        (if-Formats (is aig_msg_type m) _ _
          (parse_into-Formats (as_aig m.cont) (parse_raw_aig_msg p) aig 1 m (λ b c s t r e h. tt))
          (if-Formats (is amg_msg_type m) _ _
            (parse_into-Formats (as_amg m.cont) (parse_raw_amg_msg p) amg 2 m (λ b c s t r e h. tt))
            (if-Formats (is atg_msg_type m) _ _
              (parse_into-Formats (as_atg m.cont) (parse_raw_atg_msg p) atg 3 m
                (λ b c s t r e h. tt))
              (if-Formats (is aex_msg_type m) _ _ unchanged (
                if-Formats (is ang_msg_type m) _ _
                  (parse_into-Formats (as_ang m.cont) (parse_raw_ang_msg p) ang 5 m
                    (λ b c s t r e h. tt))
                  (if-Formats (is adi_msg_type m) _ _
                    (parse_into-Formats (as_adi m.cont) (parse_raw_adi_msg p) adi 6 m
                      (parse_raw_adi_msg-IsFormat p))
                    (if-Formats (is asy_msg_type m) _ _
                      (parse_into-Formats (as_asy m.cont) (parse_raw_asy_msg p) asy 7 m
                        (λ b c s t r e h. tt))
                      (if-Formats (is adr_msg_type m) _ _
                        (parse_into-Formats (as_adr m.cont) (parse_raw_adr_msg p) adr 8 m
                          (λ b c s t r e h. tt))
                        (if-Formats (is adw_msg_type m) _ _
                          (parse_into-Formats (as_adw m.cont) (parse_raw_adw_msg p) adw 9 m
                            (λ b c s t r e h. tt))
                          (unknown))))))))))
