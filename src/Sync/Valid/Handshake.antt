-- ===== src/Sync/Valid/Handshake.antt =====
-- The handshake keeps the environment well-formed.
use lib_zdtm_sync.Prelude.{
  ℕ, zero, suc, List, [], ◌∷◌, ◌≡◌, refl, sym, ◌∙◌, arith, Bool-cases, inl, inr, ◌==◌,
}
use lib_zdtm_sync.Prelude.Int.{ℤ, equals}
use lib_zdtm_sync.Run.{M, ok}
use lib_zdtm_sync.Env.{Env, State, FormatParam, bind-keeps, if-keeps}
use lib_zdtm_sync.Env.Valid.{IsEnv}
use lib_zdtm_sync.Platform.{Platform}
use lib_zdtm_sync.Log.KeepsEnv.{log_error-env}
use lib_zdtm_sync.Msgs.KeepsEnv.{clean_message-env}
use lib_zdtm_sync.Net.KeepsEnv.{send_message-env, recv_message-env, wrapped_recv_message-env}
use lib_zdtm_sync.Proto.KeepsEnv.{
  authenticate_passcode-env, reset_sync_log-env, obtain_last_time_synced-env,
  set_last_time_synced-env,
}
use lib_zdtm_sync.Proto.Session.{reset_sync_log, reset_sync_state}
use lib_zdtm_sync.Proto.Valid.{
  connect-IsEnv, obtain_device_info-IsEnv, obtain_sync_state-IsEnv, reset_sync_state-IsEnv,
  obtain_param_format-IsEnv,
}
use lib_zdtm_sync.Sync.Initiate.{
  copy_descs, need_device_info, need_sync_state, check_cur_auth_state, requires_slow_sync, if_slow,
  await_aay, greet, authenticate, record_sync, prepare_sync, initiate_sync,
}

module _ {W : Type 0} (p : Platform W) where
  need_device_info-IsEnv :
      (s t : State W) (r : ℤ) → need_device_info p s ≡ ok r t → IsEnv s.env → IsEnv t.env
  unfolding need_device_info
  need_device_info-IsEnv s t r e h = elim (Bool-cases (s.env.retreived_device_info == 0)) [
    | inl g ↦ obtain_device_info-IsEnv p s t r (sym (rw (g, need_device_info) refl) ∙ e) h
    | inr g ↦ ground (arith, g)
  ]

  pub check_cur_auth_state-IsEnv :
      (s t : State W) (r : ℤ) → check_cur_auth_state p s ≡ ok r t → IsEnv s.env → IsEnv t.env
  unfolding check_cur_auth_state
  check_cur_auth_state-IsEnv s t r e h = grind (arith, need_device_info-IsEnv)

  pub need_sync_state-IsEnv :
      (s t : State W) (r : ℤ) → need_sync_state p s ≡ ok r t → IsEnv s.env → IsEnv t.env
  unfolding need_sync_state
  need_sync_state-IsEnv s t r e h = elim (Bool-cases (s.env.retrieved_sync_state == 0)) [
    | inl g ↦ obtain_sync_state-IsEnv p s t r (sym (rw (g, need_sync_state) refl) ∙ e) h
    | inr g ↦ ground (arith, g)
  ]

  pub requires_slow_sync-IsEnv :
      (s t : State W) (r : ℤ) → requires_slow_sync p s ≡ ok r t → IsEnv s.env → IsEnv t.env
  unfolding requires_slow_sync
  requires_slow_sync-IsEnv s t r e h = grind (arith, need_sync_state-IsEnv)

  pub await_aay-env : (s t : State W) (r : ℤ) → await_aay p s ≡ ok r t → t.env ≡ s.env
  unfolding await_aay
  await_aay-env s t r e = grind (arith, wrapped_recv_message-env, log_error-env, clean_message-env)

  greet-IsEnv : (s t : State W) (r : ℤ) → greet p s ≡ ok r t → IsEnv s.env → IsEnv t.env
  unfolding greet
  greet-IsEnv s t r e h = grind (
    arith, connect-IsEnv, send_message-env, recv_message-env, await_aay-env, log_error-env,
    clean_message-env,
  )

  authenticate-IsEnv :
      (s t : State W) (r : ℤ) → authenticate p s ≡ ok r t → IsEnv s.env → IsEnv t.env
  unfolding authenticate
  authenticate-IsEnv s t r e h =
      grind (arith, check_cur_auth_state-IsEnv, authenticate_passcode-env)

  -- a step that is made only where a slow sync is due
  pub if_slow-keeps :
      (I : Env → Type 0)
      → ((s t : State W) (r : ℤ) → requires_slow_sync p s ≡ ok r t → I s.env → I t.env)
      → (step : M (State W) ℤ) → ((s t : State W) (r : ℤ) → step s ≡ ok r t → I s.env → I t.env)
      → (s t : State W) (r : ℤ) → if_slow p step s ≡ ok r t
      → I s.env
      → I t.env
  unfolding if_slow
  if_slow-keeps I required step k =
      bind-keeps I _ _ required (λ a. if-keeps I (equals a 1) _ _ k (λ s t r e h. ground arith))

  if_slow-IsEnv :
      (step : M (State W) ℤ)
      → ((s t : State W) (r : ℤ) → step s ≡ ok r t → IsEnv s.env → IsEnv t.env)
      → (s t : State W) (r : ℤ) → if_slow p step s ≡ ok r t
      → IsEnv s.env
      → IsEnv t.env
  if_slow-IsEnv = if_slow-keeps IsEnv requires_slow_sync-IsEnv

  pub copy_descs-env :
      (n : ℕ) (xs : List FormatParam) (s t : State W) (r : Unit {0})
      → copy_descs n xs s ≡ ok r t
      → t.env ≡ s.env
  unfolding copy_descs
  copy_descs-env zero xs s t r e = ground arith
  copy_descs-env (suc n) [] s t r e = ground arith
  copy_descs-env (suc n) (x ∷ xs) s t r e = grind (arith, copy_descs-env n xs)

  record_sync-IsEnv : (s t : State W) (r : ℤ) → record_sync p s ≡ ok r t → IsEnv s.env → IsEnv t.env
  unfolding record_sync
  record_sync-IsEnv s t r e h = grind (
    arith,
    set_last_time_synced-env,
    if_slow-IsEnv (reset_sync_state p) (reset_sync_state-IsEnv p),
    obtain_param_format-IsEnv,
    copy_descs-env,
  )

  prepare_sync-IsEnv :
      (s t : State W) (r : ℤ) → prepare_sync p s ≡ ok r t → IsEnv s.env → IsEnv t.env
  unfolding prepare_sync
  prepare_sync-IsEnv s t r e h = grind (
    arith,
    obtain_device_info-IsEnv,
    obtain_sync_state-IsEnv,
    obtain_last_time_synced-env,
    if_slow-IsEnv (reset_sync_log p),
    reset_sync_log-env,
    record_sync-IsEnv,
  )

  pub initiate_sync-IsEnv :
      (s t : State W) (r : ℤ) → initiate_sync p s ≡ ok r t → IsEnv s.env → IsEnv t.env
  unfolding initiate_sync
  initiate_sync-IsEnv s t r e h = grind (arith, greet-IsEnv, authenticate-IsEnv, prepare_sync-IsEnv)
