-- ===== src/Sync/Initiate.antt =====
-- The handshake that begins a synchronization (zdtm_initiate_sync, zdtm_check_cur_auth_state and
-- zdtm_requires_slow_sync of src/zdtm_sync.c).
use lib_zdtm_sync.Prelude.{
  ℕ, zero, suc, none, some, ◌||◌, List, [], ◌∷◌, ◌++◌, if◌then◌else◌, ◌==◌, replicate, same_bytes,
  not,
}
use lib_zdtm_sync.Prelude.Int.{ℤ, pos, negsuc, nonzero, negative, equals}
use lib_zdtm_sync.Run.{M, pure, undefined, defined, ◌>>=◌, ◌>>◌, return_if, overlay}
use lib_zdtm_sync.Env.{Env, State, FormatParam, get_env, call}
use lib_zdtm_sync.Platform.{Platform}
use lib_zdtm_sync.Requests.{pointee, read}
use lib_zdtm_sync.Message.{zero_msg, new_msg, zeroed, is, ray_msg_type, aay_msg_type}
use lib_zdtm_sync.Msgs.{clean_message}
use lib_zdtm_sync.Log.{log_error}
use lib_zdtm_sync.Items.Copy.{array}
use lib_zdtm_sync.Names.{in_initiate_send, in_initiate_recv, in_initiate_wrapped}
use lib_zdtm_sync.Net.Send.{send_message}
use lib_zdtm_sync.Net.Recv.{recv_message}
use lib_zdtm_sync.Net.Wrapped.{wrapped_recv_message}
use lib_zdtm_sync.Proto.{connect}
use lib_zdtm_sync.Proto.Session.{
  obtain_device_info, obtain_sync_state, reset_sync_state, authenticate_passcode, reset_sync_log,
  obtain_param_format,
}
use lib_zdtm_sync.Proto.Time.{obtain_last_time_synced, set_last_time_synced}

-- SYNC_TODO, SYNC_CALENDAR and SYNC_ADDRESSBOOK
abbrev pub sync_todo : ℕ
sync_todo = 0x06

abbrev pub sync_calendar : ℕ
sync_calendar = 0x01

abbrev pub sync_addressbook : ℕ
sync_addressbook = 0x07

-- The flag of the environment that belongs to its synchronization type.
unfoldable pub slow_sync_flag : Env → ℤ
slow_sync_flag env =
    if env.sync_type == sync_todo
    then pos env.todo_slow_sync_required
    else if env.sync_type == sync_calendar
    then pos env.calendar_slow_sync_required
    else if env.sync_type == sync_addressbook
    then pos env.address_book_slow_sync_required
    else negsuc 1

-- The last loop of the handshake: each description and its NUL are copied to a buffer of 256 bytes.
unfoldable pub copy_descs : {W : Type 0} → ℕ → List FormatParam → M (State W) (Unit {0})
copy_descs zero params = pure tt
copy_descs (suc n) [] = undefined
copy_descs (suc n) (x ∷ xs) = do
  desc ← defined (read x.desc_len (pointee x.desc))
  _ ← defined (overlay (desc ++ (0 ∷ [])) (replicate 256 0))
  copy_descs n xs

module _ {W : Type 0} (p : Platform W) where
  -- The device information is asked for where it is not there yet.
  unfoldable pub need_device_info : M (State W) ℤ
  need_device_info = do
    env ← get_env
    if env.retreived_device_info == 0 then obtain_device_info p else pure (pos 0)

  unfoldable pub check_cur_auth_state : M (State W) ℤ
  check_cur_auth_state = do
    r ← need_device_info
    return_if (nonzero r) (pure (negsuc 0))
    env ← get_env
    pure (if env.cur_auth_state == 0x0b || env.cur_auth_state == 0x07 then pos 1 else pos 0)

  -- So is the state of the synchronization.
  unfoldable pub need_sync_state : M (State W) ℤ
  need_sync_state = do
    env ← get_env
    if env.retrieved_sync_state == 0 then obtain_sync_state p else pure (pos 0)

  unfoldable pub requires_slow_sync : M (State W) ℤ
  requires_slow_sync = do
    r ← need_sync_state
    return_if (nonzero r) (pure (negsuc 0))
    env ← get_env
    pure (slow_sync_flag env)

  -- AAY, which the device sends behind its acknowledgement of RAY.
  unfoldable pub await_aay : M (State W) ℤ
  await_aay = do
    (r, rmsg) ← wrapped_recv_message p zero_msg
    return_if (nonzero r)
        (do _ ← log_error p in_initiate_wrapped r; _ ← clean_message rmsg; pure (negsuc 2))
    _ ← clean_message rmsg
    pure (if is aay_msg_type rmsg then pos 0 else negsuc 3)

  -- The connection, RAY, its acknowledgement, and AAY.
  unfoldable pub greet : M (State W) ℤ
  greet = do
    env ← get_env
    r ← connect p env.zaurus_ip
    return_if (nonzero r) (pure (negsuc 5))
    (r, _) ← send_message p (new_msg ray_msg_type zeroed)
    return_if (nonzero r) (do _ ← log_error p in_initiate_send r; pure (negsuc 0))
    (r, rmsg) ← recv_message p zero_msg
    return_if (not (equals r 1)) (do
      _ ← log_error p in_initiate_recv r
      _ ← clean_message rmsg
      pure (if nonzero r then negsuc 1 else negsuc 0))
    _ ← clean_message rmsg
    await_aay

  -- Authentication, where the device asks for it: 0 to go on, else what the handshake returns.
  unfoldable pub authenticate : M (State W) ℤ
  authenticate = do
    r ← check_cur_auth_state
    return_if (negative r) (pure (negsuc 5))
    return_if (not (equals r 1)) (pure (pos 0))
    env ← get_env
    elim env.passcode [
      | none ↦ pure (negsuc 7)
      | some passcode ↦ do
        r ← authenticate_passcode p passcode
        return_if (equals r 1) (pure (pos 1))
        return_if (nonzero r) (pure (negsuc 6))
        pure (pos 0)
    ]

  -- A step that is made only where a slow sync is due.
  unfoldable pub if_slow : M (State W) ℤ → M (State W) ℤ
  if_slow step = do r ← requires_slow_sync; if equals r 1 then step else pure (pos 0)

  -- From the new time of synchronization to the parameter format.
  unfoldable pub record_sync : M (State W) ℤ
  record_sync = do
    now ← call p.time
    r ← set_last_time_synced p now
    return_if (nonzero r) (pure (negsuc 13))
    r ← if_slow (reset_sync_state p)
    return_if (nonzero r) (pure (negsuc 14))
    r ← obtain_param_format p
    return_if (nonzero r) (pure (negsuc 15))
    env ← get_env
    _ ← copy_descs env.num_params (array env.params)
    pure (pos 0)

  -- From the device information on.
  unfoldable pub prepare_sync : M (State W) ℤ
  prepare_sync = do
    r ← obtain_device_info p
    return_if (negative r) (pure (negsuc 8))
    r ← obtain_sync_state p
    return_if (nonzero r) (pure (negsuc 9))
    (r, _) ← obtain_last_time_synced p (pos 0)
    return_if (nonzero r) (pure (if equals r 1 then negsuc 10 else negsuc 11))
    r ← if_slow (reset_sync_log p)
    return_if (nonzero r) (pure (negsuc 12))
    record_sync

  unfoldable pub initiate_sync : M (State W) ℤ
  initiate_sync = do
    env ← get_env
    return_if (env.sync_type == 0) (pure (negsuc 6))
    return_if (same_bytes env.zaurus_ip (replicate 16 0)) (pure (negsuc 4))
    r ← greet
    return_if (nonzero r) (pure r)
    r ← authenticate
    return_if (nonzero r) (pure r)
    prepare_sync
