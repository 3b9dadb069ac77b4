-- ===== src/Log/KeepsEnv.antt =====
-- No function of the log but open_log changes the environment.
use lib_zdtm_sync.Prelude.{ℕ, List, ◌≡◌, refl, arith}
use lib_zdtm_sync.Prelude.Int.{ℤ}
use lib_zdtm_sync.Run.{ok}
use lib_zdtm_sync.Env.{State}
use lib_zdtm_sync.Platform.{Platform}
use lib_zdtm_sync.Message.{Msg}
use lib_zdtm_sync.Log.{write_log, log_error, close_log}
use lib_zdtm_sync.Log.View.{dump_msg_log-view}
use lib_zdtm_sync.Log.Dump.{dump_msg_log}

module _ {W : Type 0} (p : Platform W) where
  write_log-env :
      (b : List ℕ) (n : ℕ) (s t : State W) (r : ℤ) → write_log p b n s ≡ ok r t → t.env ≡ s.env
  unfolding write_log
  write_log-env b n s t r e = ground arith

  pub log_error-env :
      (b : List ℕ) (n : ℤ) (s t : State W) (r : ℤ) → log_error p b n s ≡ ok r t → t.env ≡ s.env
  unfolding log_error
  log_error-env b n s t r e = grind (arith, write_log-env)

  pub close_log-env : (s t : State W) (r : ℤ) → close_log p s ≡ ok r t → t.env ≡ s.env
  unfolding close_log
  close_log-env s t r e = ground arith

  pub dump_msg_log-env :
      (m : Msg) (s t : State W) (r : ℤ) → dump_msg_log p m s ≡ ok r t → t.env ≡ s.env
  dump_msg_log-env = dump_msg_log-view p (λ (s : State W). s.env) (λ fp b s. refl) (λ fp s. refl)
