-- ===== src/Proto/KeepsEnv.antt =====
-- The operations of the protocol that do not change the environment.
use lib_zdtm_sync.Prelude.{ℕ, List, Option, ◌≡◌, arith}
use lib_zdtm_sync.Prelude.Int.{ℤ}
use lib_zdtm_sync.Run.{ok}
use lib_zdtm_sync.Env.{State}
use lib_zdtm_sync.Platform.{Platform}
use lib_zdtm_sync.Contents.{Atg, DataParam}
use lib_zdtm_sync.Message.{Msg}
use lib_zdtm_sync.Msgs.KeepsEnv.{clean_message-env}
use lib_zdtm_sync.Net.KeepsEnv.{wrapped_send_message-env, wrapped_recv_message-env}
use lib_zdtm_sync.Proto.{Answer, await, ask}
use lib_zdtm_sync.Proto.Session.{
  await_verdict, send_log, authenticate_passcode, reset_sync_log, state_sync_done,
}
use lib_zdtm_sync.Proto.Time.{use_time, obtain_last_time_synced, set_last_time_synced}
use lib_zdtm_sync.Proto.Item.{obtain_item}

module _ {W : Type 0} (p : Platform W) where
  await-env :
      (base : ℕ) (mtype : List ℕ) (s t : State W) (r : Answer)
      → await p base mtype s ≡ ok r t
      → t.env ≡ s.env
  unfolding await
  await-env base mtype s t r e = grind (arith, wrapped_recv_message-env, clean_message-env)

  pub ask-env :
      (base : ℕ) (m : Msg) (mtype : List ℕ) (s t : State W) (r : Answer)
      → ask p base m mtype s ≡ ok r t
      → t.env ≡ s.env
  unfolding ask
  ask-env base m mtype s t r e = grind (arith, wrapped_send_message-env, await-env)

  await_verdict-env : (s t : State W) (r : ℤ) → await_verdict p s ≡ ok r t → t.env ≡ s.env
  unfolding await_verdict
  await_verdict-env s t r e = grind (arith, wrapped_recv_message-env, clean_message-env)

  send_log-env : (m : Msg) (s t : State W) (r : ℤ) → send_log p m s ≡ ok r t → t.env ≡ s.env
  unfolding send_log
  send_log-env m s t r e =
      grind (arith, wrapped_send_message-env, wrapped_recv_message-env, clean_message-env)

  use_time-env :
      (time : ℤ) (m : Msg) (atg : Atg) (s t : State W) (r : ℤ × ℤ)
      → use_time p time m atg s ≡ ok r t
      → t.env ≡ s.env
  unfolding use_time
  use_time-env time m atg s t r e = grind (arith, clean_message-env)

  pub authenticate_passcode-env :
      (b : List ℕ) (s t : State W) (r : ℤ) → authenticate_passcode p b s ≡ ok r t → t.env ≡ s.env
  unfolding authenticate_passcode
  authenticate_passcode-env b s t r e = grind (arith, wrapped_send_message-env, await_verdict-env)

  pub reset_sync_log-env : (s t : State W) (r : ℤ) → reset_sync_log p s ≡ ok r t → t.env ≡ s.env
  unfolding reset_sync_log
  reset_sync_log-env s t r e =
      grind
        (arith, wrapped_send_message-env, wrapped_recv_message-env, clean_message-env, send_log-env)

  pub state_sync_done-env : (s t : State W) (r : ℤ) → state_sync_done p s ≡ ok r t → t.env ≡ s.env
  unfolding state_sync_done
  state_sync_done-env s t r e = grind (arith, ask-env, clean_message-env)

  pub obtain_last_time_synced-env :
      (time : ℤ) (s t : State W) (r : ℤ × ℤ)
      → obtain_last_time_synced p time s ≡ ok r t
      → t.env ≡ s.env
  unfolding obtain_last_time_synced
  obtain_last_time_synced-env time s t r e = grind (arith, ask-env, use_time-env)

  pub set_last_time_synced-env :
      (time : ℤ) (s t : State W) (r : ℤ) → set_last_time_synced p time s ≡ ok r t → t.env ≡ s.env
  unfolding set_last_time_synced
  set_last_time_synced-env time s t r e = grind (arith, ask-env, clean_message-env)

  pub obtain_item-env :
      (id : ℕ) (s t : State W) (r : ℤ × Option (Option (List DataParam) × ℕ))
      → obtain_item p id s ≡ ok r t
      → t.env ≡ s.env
  unfolding obtain_item
  obtain_item-env id s t r e = grind (arith, ask-env, clean_message-env)
