-- ===== src/Sync/Valid.antt =====
-- The opening of the library and its settings make a well-formed environment, and keep it one.
pub mod Handshake
pub mod Items
use lib_zdtm_sync.Prelude.{
  ℕ, zero, suc, Option, none, some, List, [], ◌∷◌, length, replicate, ◌≡◌, refl, sym, ◌∙◌, true,
  false, Bool, arith, Bool-cases, Option-cases, inl, inr, if◌then◌else◌, ◌==◌,
}
use lib_zdtm_sync.Prelude.Int.{ℤ, pos, negsuc, equals}
use lib_zdtm_sync.Run.{M, ok, pure, split, ◌>>=◌}
use lib_zdtm_sync.Env.{Env, State, FormatParam}
use lib_zdtm_sync.Env.Valid.{is_sync_type, IsFormat, IsEnv}
use lib_zdtm_sync.Platform.{Platform}
use lib_zdtm_sync.Contents.{Asy, DataParam, TodoItem}
use lib_zdtm_sync.Message.{Msg}
use lib_zdtm_sync.Log.{open_log}
use lib_zdtm_sync.Log.KeepsEnv.{log_error-env}
use lib_zdtm_sync.Msgs.KeepsEnv.{clean_message-env}
use lib_zdtm_sync.Net.{listen_for_zaurus}
use lib_zdtm_sync.Net.KeepsEnv.{
  send_message-env, recv_message-env, wrapped_send_message-env, wrapped_recv_message-env,
}
use lib_zdtm_sync.Proto.KeepsEnv.{
  ask-env, authenticate_passcode-env, reset_sync_log-env, obtain_last_time_synced-env,
  set_last_time_synced-env, obtain_item-env,
}
use lib_zdtm_sync.Proto.Item.{free_each, free_params}
use lib_zdtm_sync.Proto.Session.{reset_sync_log, reset_sync_state}
use lib_zdtm_sync.Proto.Valid.{
  connect-IsEnv, disconnect-env, obtain_device_info-IsEnv, obtain_sync_state-IsEnv,
  reset_sync_state-IsEnv, obtain_param_format-IsEnv,
}
use lib_zdtm_sync.Items.Calendar.{CalendarItem}
use lib_zdtm_sync.Items.Address.{AddressItem}
use lib_zdtm_sync.Items.KeepsEnv.{
  parse_todo_item_params-env, parse_calendar_item_params-env, parse_address_item_params-env,
}
use lib_zdtm_sync.Sync.{
  initial, sync_type_of, initialize, set_zaurus_ip, set_sync_type, set_passcode,
}
use lib_zdtm_sync.Sync.Initiate.{
  copy_descs, need_device_info, need_sync_state, check_cur_auth_state, requires_slow_sync, if_slow,
  await_aay, greet, authenticate, record_sync, prepare_sync, initiate_sync,
}
use lib_zdtm_sync.Sync.Lists.{IdLists, copy_lists, obtain_sync_id_lists}
use lib_zdtm_sync.Sync.ItemCalls.{
  obtain_parsed, obtain_todo_item, obtain_calendar_item, obtain_address_item, delete_item,
}
use lib_zdtm_sync.Sync.Terminate.{terminate_sync}

length-split : (n : ℕ) (b x y : List ℕ) → split n b ≡ some (x, y) → length x ≡ n
length-split zero b x y e = ground arith
length-split (suc n) [] x y e = ground arith
length-split (suc n) (z ∷ b) x y e = elim (Option-cases (split n b)) [
  | inl g ↦ ground (arith, g)
  | inr ((front, rest), g) ↦ ground (arith, g, length-split n b front rest g)
]

initial-IsEnv : (env : Env) → length env.model ≡ 256 → length env.language ≡ 2 → IsEnv (initial env)
unfolding IsEnv initial IsFormat
initial-IsEnv env h k = ground arith

module _ {W : Type 0} (p : Platform W) where
  open_log-arrays :
      (s t : State W) (r : ℤ)
      → open_log p s ≡ ok r t
      → (t.env.model ≡ s.env.model) × (t.env.language ≡ s.env.language)
  unfolding open_log
  open_log-arrays s t r e = ground arith

  listen_for_zaurus-IsEnv :
      (s t : State W) (r : ℤ) → listen_for_zaurus p s ≡ ok r t → IsEnv s.env → IsEnv t.env
  unfolding IsEnv listen_for_zaurus
  listen_for_zaurus-IsEnv s t r e h = ground arith

  pub initialize-IsEnv :
      (s t : State W)
      → initialize p s ≡ ok (pos 0) t
      → length s.env.model ≡ 256
      → length s.env.language ≡ 2
      → IsEnv t.env
  unfolding initialize
  initialize-IsEnv s t e h k =
      grind (arith, open_log-arrays, listen_for_zaurus-IsEnv, initial-IsEnv)

  pub set_zaurus_ip-IsEnv :
      (ip : List ℕ) (s t : State W) (r : ℤ)
      → set_zaurus_ip p ip s ≡ ok r t
      → IsEnv s.env
      → IsEnv t.env
  unfolding IsEnv set_zaurus_ip
  set_zaurus_ip-IsEnv ip s t r e h = elim (Option-cases (split 16 ip)) [
    | inl g ↦ ground (arith, g)
    | inr ((x, y), g) ↦ ground (arith, g, length-split 16 ip x y g)
  ]

  pub set_sync_type-IsEnv :
      (type : ℕ) (s t : State W) (r : ℤ)
      → set_sync_type p type s ≡ ok r t
      → IsEnv s.env
      → IsEnv t.env
  unfolding IsEnv set_sync_type
  set_sync_type-IsEnv type s t r e h = ground arith

  pub set_passcode-IsEnv :
      (code : List ℕ) (s t : State W) (r : ℤ)
      → set_passcode p code s ≡ ok r t
      → IsEnv s.env
      → IsEnv t.env
  unfolding IsEnv set_passcode
  set_passcode-IsEnv code s t r e h = ground arith
