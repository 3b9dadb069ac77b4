-- ===== src/Sync/Once.antt =====
-- An environment that holds a parameter format cannot begin another synchronization.
use lib_zdtm_sync.Prelude.{
  ℕ, Option, some, List, ◌≡◌, refl, sym, ◌∙◌, arith, Bool-cases, inl, inr, ◌==◌,
}
use lib_zdtm_sync.Prelude.Int.{ℤ, pos, negsuc}
use lib_zdtm_sync.Run.{M, ok}
use lib_zdtm_sync.Env.{Env, State, FormatParam}
use lib_zdtm_sync.Platform.{Platform}
use lib_zdtm_sync.Log.KeepsEnv.{log_error-env}
use lib_zdtm_sync.Msgs.KeepsEnv.{clean_message-env}
use lib_zdtm_sync.Net.KeepsEnv.{
  send_message-env, recv_message-env, wrapped_send_message-env, wrapped_recv_message-env,
}
use lib_zdtm_sync.Proto.KeepsEnv.{
  ask-env, authenticate_passcode-env, reset_sync_log-env, obtain_last_time_synced-env,
  set_last_time_synced-env,
}
use lib_zdtm_sync.Proto.Session.{reset_sync_log, reset_sync_state}
use lib_zdtm_sync.Sync.Initiate.{
  need_device_info, need_sync_state, check_cur_auth_state, requires_slow_sync, if_slow, greet,
  authenticate, record_sync, prepare_sync, initiate_sync,
}
use lib_zdtm_sync.Proto.Valid.{keep_info-keeps}
use lib_zdtm_sync.Sync.Valid.Handshake.{await_aay-env, if_slow-keeps}
use lib_zdtm_sync.Run.{overlay}
use lib_zdtm_sync.Net.{conn_to_zaurus, handle_zaurus_conn}
use lib_zdtm_sync.Net.KeepsEnv.{send_message_to-env}
use lib_zdtm_sync.Proto.{connect}
use lib_zdtm_sync.Proto.Session.{
  set_slow_sync, reset_slow_sync, obtain_device_info, obtain_sync_state, obtain_param_format,
}
use lib_zdtm_sync.Prelude.{◌≢◌}

abbrev Params : Type 0
Params = Option (List FormatParam)

unfoldable HasParams : Params → Env → Type 0
HasParams o env = env.params ≡ o

module _ {W : Type 0} (p : Platform W) (o : Params) where
  conn_to_zaurus-HasParams :
      (ip : List ℕ) (s t : State W) (r : ℤ)
      → conn_to_zaurus p ip s ≡ ok r t
      → HasParams o s.env
      → HasParams o t.env
  unfolding conn_to_zaurus HasParams
  conn_to_zaurus-HasParams ip s t r e h = ground arith

  handle_zaurus_conn-HasParams :
      (s t : State W) (r : ℤ)
      → handle_zaurus_conn p s ≡ ok r t
      → HasParams o s.env
      → HasParams o t.env
  unfolding handle_zaurus_conn HasParams
  handle_zaurus_conn-HasParams s t r e h = ground arith

  connect-HasParams :
      (ip : List ℕ) (s t : State W) (r : ℤ)
      → connect p ip s ≡ ok r t
      → HasParams o s.env
      → HasParams o t.env
  unfolding connect
  connect-HasParams ip s t r e h =
      grind (arith, conn_to_zaurus-HasParams, handle_zaurus_conn-HasParams, send_message_to-env)

  greet-HasParams :
      (s t : State W) (r : ℤ) → greet p s ≡ ok r t → HasParams o s.env → HasParams o t.env
  unfolding greet
  greet-HasParams s t r e h = grind (
    arith, connect-HasParams, send_message-env, recv_message-env, await_aay-env, log_error-env,
    clean_message-env,
  )

  store_info-HasParams :
      (env : Env) (a b model language : List ℕ) (auth : ℕ)
      → overlay a env.model ≡ some model
      → overlay b env.language ≡ some language
      → HasParams o env
      → HasParams o (record env {
        model = model;
        language = language;
        cur_auth_state = auth;
        retreived_device_info = 1;
      })
  unfolding HasParams
  store_info-HasParams env a b model language auth k l h = h

  obtain_device_info-HasParams :
      (s t : State W) (r : ℤ)
      → obtain_device_info p s ≡ ok r t
      → HasParams o s.env
      → HasParams o t.env
  unfolding obtain_device_info
  obtain_device_info-HasParams s t r e h = grind (
    arith,
    wrapped_send_message-env,
    wrapped_recv_message-env,
    log_error-env,
    clean_message-env,
    keep_info-keeps p (HasParams o) store_info-HasParams,
  )

  need_device_info-HasParams :
      (s t : State W) (r : ℤ)
      → need_device_info p s ≡ ok r t
      → HasParams o s.env
      → HasParams o t.env
  unfolding need_device_info
  need_device_info-HasParams s t r e h = elim (Bool-cases (s.env.retreived_device_info == 0)) [
    | inl g ↦ obtain_device_info-HasParams s t r (sym (rw (g, need_device_info) refl) ∙ e) h
    | inr g ↦ ground (arith, g)
  ]

  check_cur_auth_state-HasParams :
      (s t : State W) (r : ℤ)
      → check_cur_auth_state p s ≡ ok r t
      → HasParams o s.env
      → HasParams o t.env
  unfolding check_cur_auth_state
  check_cur_auth_state-HasParams s t r e h = grind (arith, need_device_info-HasParams)

  authenticate-HasParams :
      (s t : State W) (r : ℤ) → authenticate p s ≡ ok r t → HasParams o s.env → HasParams o t.env
  unfolding authenticate
  authenticate-HasParams s t r e h =
      grind (arith, check_cur_auth_state-HasParams, authenticate_passcode-env)

  set_slow_sync-HasParams :
      (k : ℕ) (env : Env) → HasParams o env → HasParams o (set_slow_sync k env)
  unfolding set_slow_sync HasParams
  set_slow_sync-HasParams k env h = h

  reset_slow_sync-HasParams : (env : Env) → HasParams o env → HasParams o (reset_slow_sync env)
  unfolding reset_slow_sync HasParams
  reset_slow_sync-HasParams env h = h

  obtain_sync_state-HasParams :
      (s t : State W) (r : ℤ)
      → obtain_sync_state p s ≡ ok r t
      → HasParams o s.env
      → HasParams o t.env
  unfolding obtain_sync_state
  obtain_sync_state-HasParams s t r e h =
      grind (arith, ask-env, clean_message-env, set_slow_sync-HasParams)

  need_sync_state-HasParams :
      (s t : State W) (r : ℤ) → need_sync_state p s ≡ ok r t → HasParams o s.env → HasParams o t.env
  unfolding need_sync_state
  need_sync_state-HasParams s t r e h = elim (Bool-cases (s.env.retrieved_sync_state == 0)) [
    | inl g ↦ obtain_sync_state-HasParams s t r (sym (rw (g, need_sync_state) refl) ∙ e) h
    | inr g ↦ ground (arith, g)
  ]

  requires_slow_sync-HasParams :
      (s t : State W) (r : ℤ)
      → requires_slow_sync p s ≡ ok r t
      → HasParams o s.env
      → HasParams o t.env
  unfolding requires_slow_sync
  requires_slow_sync-HasParams s t r e h = grind (arith, need_sync_state-HasParams)

  reset_sync_state-HasParams :
      (s t : State W) (r : ℤ)
      → reset_sync_state p s ≡ ok r t
      → HasParams o s.env
      → HasParams o t.env
  unfolding reset_sync_state
  reset_sync_state-HasParams s t r e h =
      grind (arith, ask-env, clean_message-env, reset_slow_sync-HasParams)

  if_slow-HasParams :
      (step : M (State W) ℤ)
      → ((s t : State W) (r : ℤ) → step s ≡ ok r t → HasParams o s.env → HasParams o t.env)
      → (s t : State W) (r : ℤ) → if_slow p step s ≡ ok r t
      → HasParams o s.env
      → HasParams o t.env
  if_slow-HasParams = if_slow-keeps p (HasParams o) requires_slow_sync-HasParams

module _ {W : Type 0} (p : Platform W) (fs : List FormatParam) where
  obtain_param_format-again :
      (s t : State W) (r : ℤ)
      → obtain_param_format p s ≡ ok r t
      → HasParams (some fs) s.env
      → r ≡ negsuc 3
  unfolding obtain_param_format HasParams
  obtain_param_format-again s t r e h = ground (arith, h)

  record_sync-again :
      (s t : State W) (r : ℤ) → record_sync p s ≡ ok r t → HasParams (some fs) s.env → r ≢ pos 0
  unfolding record_sync
  record_sync-again s t r e h = grind (
    arith,
    set_last_time_synced-env,
    if_slow-HasParams p (some fs) (reset_sync_state p) (reset_sync_state-HasParams p (some fs)),
    obtain_param_format-again,
  )

  prepare_sync-again :
      (s t : State W) (r : ℤ) → prepare_sync p s ≡ ok r t → HasParams (some fs) s.env → r ≢ pos 0
  unfolding prepare_sync
  prepare_sync-again s t r e h = grind (
    arith,
    obtain_device_info-HasParams,
    obtain_sync_state-HasParams,
    obtain_last_time_synced-env,
    if_slow-HasParams p (some fs) (reset_sync_log p),
    reset_sync_log-env,
    record_sync-again,
  )

  -- Once an environment holds a parameter format, zdtm_initiate_sync does not return 0 any more:
  -- whatever the device answers, the handshake fails at the latest where it asks for the format.
  pub initiate_sync-again :
      (s t : State W) (r : ℤ) → initiate_sync p s ≡ ok r t → s.env.params ≡ some fs → r ≢ pos 0
  unfolding initiate_sync HasParams
  initiate_sync-again s t r e h =
      grind (arith, greet-HasParams, authenticate-HasParams, prepare_sync-again)
