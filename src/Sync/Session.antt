-- ===== src/Sync/Session.antt =====
-- The environment through a whole use of the library, and the memory that zdtm_finalize frees.
use lib_zdtm_sync.Prelude.{length, ◌≡◌, arith}
use lib_zdtm_sync.Prelude.Int.{ℤ}
use lib_zdtm_sync.Run.{ok}
use lib_zdtm_sync.Env.{State}
use lib_zdtm_sync.Env.Valid.{IsEnv}
use lib_zdtm_sync.Platform.{Platform}
use lib_zdtm_sync.Sync.Calls.{
  Call, zaurus_ip, sync_type, passcode, initiate, auth_state, slow_sync, id_lists, terminate,
  todo_item, calendar_item, address_item, delete, perform, Reached, started, called,
}
use lib_zdtm_sync.Sync.Valid.{
  initialize-IsEnv, set_zaurus_ip-IsEnv, set_sync_type-IsEnv, set_passcode-IsEnv,
}
use lib_zdtm_sync.Sync.Valid.Handshake.{
  initiate_sync-IsEnv, check_cur_auth_state-IsEnv, requires_slow_sync-IsEnv,
}
use lib_zdtm_sync.Sync.Valid.Items.{
  obtain_sync_id_lists-env, obtain_todo_item-env, obtain_calendar_item-env, obtain_address_item-env,
  delete_item-env, terminate_sync-env,
}

module _ {W : Type 0} (p : Platform W) where
  -- Every call between zdtm_initialize and zdtm_finalize that returns, whatever code it returns,
  -- leaves a well-formed environment well-formed.
  pub perform-IsEnv :
      (c : Call) (s t : State W) (r : ℤ) → perform p c s ≡ ok r t → IsEnv s.env → IsEnv t.env
  unfolding perform
  perform-IsEnv (zaurus_ip ip) s t r e h = set_zaurus_ip-IsEnv p ip s t r e h
  perform-IsEnv (sync_type type) s t r e h = set_sync_type-IsEnv p type s t r e h
  perform-IsEnv (passcode code) s t r e h = set_passcode-IsEnv p code s t r e h
  perform-IsEnv initiate s t r e h = initiate_sync-IsEnv p s t r e h
  perform-IsEnv auth_state s t r e h = check_cur_auth_state-IsEnv p s t r e h
  perform-IsEnv slow_sync s t r e h = requires_slow_sync-IsEnv p s t r e h
  perform-IsEnv id_lists s t r e h = grind (arith, obtain_sync_id_lists-env)
  perform-IsEnv terminate s t r e h = grind (arith, terminate_sync-env)
  perform-IsEnv (todo_item id item) s t r e h = grind (arith, obtain_todo_item-env)
  perform-IsEnv (calendar_item id item) s t r e h = grind (arith, obtain_calendar_item-env)
  perform-IsEnv (address_item id item) s t r e h = grind (arith, obtain_address_item-env)
  perform-IsEnv (delete id) s t r e h = grind (arith, delete_item-env)

  -- In every state that a program gets to by zdtm_initialize, which returned 0, and any calls behind
  -- it, the environment is well-formed: the arrays have their sizes, each flag is 0 or 1, the
  -- synchronization type is 0 or one of the three that the device knows, and num_params is the
  -- length of the parameter format. The arrays model and language have their sizes from the start.
  pub Reached-IsEnv :
      (s t : State W)
      → Reached p s t
      → length s.env.model ≡ 256
      → length s.env.language ≡ 2
      → IsEnv t.env
  Reached-IsEnv s t (started e) m l = initialize-IsEnv p s t e m l
  Reached-IsEnv s t (called {t = u} c r before e) m l =
      perform-IsEnv c u t r e (Reached-IsEnv s u before m l)
