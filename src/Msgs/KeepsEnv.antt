-- ===== src/Msgs/KeepsEnv.antt =====
-- Preparing, parsing and cleaning a message does not change the environment.
use lib_zdtm_sync.Prelude.{ℕ, ◌+◌, ◌-◌, ◌%◌, List, ◌≡◌, refl, sym, ◌∙◌, arith}
use lib_zdtm_sync.Prelude.Int.{ℤ}
use lib_zdtm_sync.Run.{ok}
use lib_zdtm_sync.Env.{State}
use lib_zdtm_sync.Platform.{Platform}
use lib_zdtm_sync.Message.{Msg, msg_type_size}
use lib_zdtm_sync.Msgs.{checksum, clean_message}
use lib_zdtm_sync.Msgs.Prepare.{
  Sized, sized, unknown, mismatch, add_u16, cont_length, fill_message, build_message,
  prepare_message,
}
use lib_zdtm_sync.Msgs.Parse.{parse_raw_msg}
use lib_zdtm_sync.Replies.KeepsEnv.{
  parse_raw_aay_msg-env, parse_raw_aig_msg-env, parse_raw_amg_msg-env, parse_raw_atg_msg-env,
  parse_raw_ang_msg-env, parse_raw_adw_msg-env, parse_raw_adi_msg-env, parse_raw_adr_msg-env,
  parse_raw_asy_msg-env,
}

module _ {W : Type 0} where
  checksum-env : (m : Msg) (s t : State W) (r : ℕ) → checksum m s ≡ ok r t → t.env ≡ s.env
  unfolding checksum
  checksum-env m s t r e = ground arith

  pub clean_message-env :
      (m : Msg) (s t : State W) (r : Msg) → clean_message m s ≡ ok r t → t.env ≡ s.env
  unfolding clean_message
  clean_message-env m s t r e = ground arith

module _ {W : Type 0} (p : Platform W) where
  fill_message-env :
      (m : Msg) (b : List ℕ) (s t : State W) (r : ℤ × Msg)
      → fill_message p m b s ≡ ok r t
      → t.env ≡ s.env
  unfolding fill_message
  fill_message-env m b s t r e = grind (arith, checksum-env)

  build_message-env :
      (m : Msg) (body cont : ℕ) (s t : State W) (r : ℤ × Msg)
      → build_message p m body cont s ≡ ok r t
      → t.env ≡ s.env
  unfolding build_message
  build_message-env m body cont s t r e = grind (arith, fill_message-env)

  sized-env :
      (m : Msg) (size : Sized) (s t : State W) (r : ℤ × Msg)
      → cont_length m ≡ size
      → prepare_message p m s ≡ ok r t
      → t.env ≡ s.env
  unfolding prepare_message
  sized-env m mismatch s t r h e = ground arith
  sized-env m unknown s t r h e = ground arith
  sized-env m (sized k) s t r h e =
      build_message-env m (add_u16 msg_type_size k)
        ((add_u16 msg_type_size k + 65536 - msg_type_size) % 65536) s t r
        (sym (rw (h, prepare_message) refl) ∙ e)

  pub prepare_message-env :
      (m : Msg) (s t : State W) (r : ℤ × Msg) → prepare_message p m s ≡ ok r t → t.env ≡ s.env
  prepare_message-env m s t r e = sized-env m (cont_length m) s t r refl e

  pub parse_raw_msg-env :
      (m : Msg) (s t : State W) (r : ℤ × Msg) → parse_raw_msg p m s ≡ ok r t → t.env ≡ s.env
  unfolding parse_raw_msg
  parse_raw_msg-env m s t r e = grind (
    arith, parse_raw_aay_msg-env, parse_raw_aig_msg-env, parse_raw_amg_msg-env,
    parse_raw_atg_msg-env, parse_raw_ang_msg-env, parse_raw_adw_msg-env, parse_raw_adi_msg-env,
    parse_raw_adr_msg-env, parse_raw_asy_msg-env,
  )
