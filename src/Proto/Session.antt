-- ===== src/Proto/Session.antt =====
-- Operations on the session: device information, synchronization state, passcode, log, end of the
-- synchronization (src/zdtm_proto.c).
use Prim.Native.Nat.{bit_and}
use lib_zdtm_sync.Prelude.{
  ℕ, ◌%◌, none, some, List, [], ◌∷◌, ◌++◌, not, if◌then◌else◌, ◌==◌, length, replicate,
}
use lib_zdtm_sync.Prelude.Int.{ℤ, pos, negsuc, nonzero, equals}
use lib_zdtm_sync.Run.{M, pure, defined, ◌>>=◌, ◌>>◌, return_if, overlay}
use lib_zdtm_sync.Env.{Env, State, get_env, update_env, free}
use lib_zdtm_sync.Platform.{Platform, allocate}
use lib_zdtm_sync.Requests.{pointee, read}
use lib_zdtm_sync.Message
use lib_zdtm_sync.Message.{
  Msg, zero_msg, new_msg, zeroed, is, rig_msg_type, aig_msg_type, rmg_msg_type, amg_msg_type,
  rss_msg_type, aex_msg_type, rrl_msg_type, ang_msg_type, rms_msg_type, rdi_msg_type, adi_msg_type,
  rds_msg_type, as_aig, as_amg, as_adi, as_rrl,
}
use lib_zdtm_sync.Msgs.{clean_message}
use lib_zdtm_sync.Log.{log_error}
use lib_zdtm_sync.Names.{in_device_info_send, in_device_info_recv}
use lib_zdtm_sync.Net.Wrapped.{wrapped_send_message, wrapped_recv_message}
use lib_zdtm_sync.Proto.{reply, refused, ask}

-- The bits of fullsync_flags that say that no slow sync is needed.
abbrev pub amg_todo_mask : ℕ
amg_todo_mask = 0x01

abbrev pub amg_cal_mask : ℕ
amg_cal_mask = 0x02

abbrev pub amg_addr_mask : ℕ
amg_addr_mask = 0x04

-- The three tests behind the reply to the state request.
unfoldable pub set_slow_sync : ℕ → Env → Env
set_slow_sync flags env = record env {
  todo_slow_sync_required =
      if bit_and flags amg_todo_mask == 0 then 1 else env.todo_slow_sync_required;
  calendar_slow_sync_required =
      if bit_and flags amg_cal_mask == 0 then 1 else env.calendar_slow_sync_required;
  address_book_slow_sync_required =
      if bit_and flags amg_addr_mask == 0 then 1 else env.address_book_slow_sync_required;
  retrieved_sync_state = 1;
}

-- The switch over the synchronization type falls through from each case to the next.
unfoldable pub reset_slow_sync : Env → Env
reset_slow_sync env = record env {
  todo_slow_sync_required = if env.sync_type == 0 then 1 else env.todo_slow_sync_required;
  calendar_slow_sync_required =
      if env.sync_type == 0
      then 1
      else if env.sync_type == 1
      then 1
      else env.calendar_slow_sync_required;
  address_book_slow_sync_required = 1;
}

module _ {W : Type 0} (p : Platform W) where
  -- The model and its NUL are copied into 256 bytes.
  unfoldable pub keep_info : Msg → M (State W) ℤ
  keep_info rmsg = do
    aig ← defined (as_aig rmsg.cont)
    env ← get_env
    model_str ← defined (read aig.model_str_len (pointee aig.model_str))
    model ← defined (overlay (model_str ++ (0 ∷ [])) env.model)
    language ← defined (overlay aig.language env.language)
    _ ← update_env (λ env. record env {
      model = model;
      language = language;
      cur_auth_state = aig.auth_state;
      retreived_device_info = 1;
    })
    _ ← clean_message rmsg
    pure (pos 0)

  unfoldable pub obtain_device_info : M (State W) ℤ
  obtain_device_info = do
    (r, _) ← wrapped_send_message p (new_msg rig_msg_type zeroed)
    return_if (nonzero r) (do _ ← log_error p in_device_info_send r; pure (negsuc 0))
    (r, rmsg) ← wrapped_recv_message p zero_msg
    return_if (nonzero r) (do _ ← log_error p in_device_info_recv r; pure (negsuc 1))
    return_if (not (is aig_msg_type rmsg)) (do _ ← clean_message rmsg; pure (negsuc 2))
    keep_info rmsg

  unfoldable pub obtain_sync_state : M (State W) ℤ
  obtain_sync_state = do
    env ← get_env
    answer ←
        ask p 0
          (new_msg rmg_msg_type (Message.rmg (record { uk = 0x01; sync_type = env.sync_type })))
          amg_msg_type
    elim answer [
      | refused r ↦ pure r
      | reply rmsg ↦ do
        amg ← defined (as_amg rmsg.cont)
        _ ← update_env (set_slow_sync amg.fullsync_flags)
        _ ← clean_message rmsg
        pure (pos 0)
    ]

  unfoldable pub reset_sync_state : M (State W) ℤ
  reset_sync_state = do
    env ← get_env
    answer ←
        ask p 0
          (new_msg rss_msg_type
            (Message.rss (record { uk_1 = 0x01; sync_type = env.sync_type; uk_2 = 0x01 })))
          aex_msg_type
    elim answer [
      | refused r ↦ pure r
      | reply rmsg ↦ do _ ← update_env reset_slow_sync; _ ← clean_message rmsg; pure (pos 0)
    ]

  -- What `free(msg.body.cont.rrl.pw)` finds in the message that was sent.
  free_pw : Msg → M (State W) (Unit {0})
  free_pw msg = do rrl ← defined (as_rrl msg.cont); free rrl.pw

  -- The device refuses a passcode by an abort and ANG, and accepts it by AEX.
  unfoldable pub await_verdict : M (State W) ℤ
  await_verdict = do
    (r, rmsg) ← wrapped_recv_message p zero_msg
    return_if (equals r 3) (do
      (r, angmsg) ← wrapped_recv_message p zero_msg
      return_if (nonzero r) (do _ ← clean_message angmsg; _ ← clean_message rmsg; pure (negsuc 2))
      _ ← clean_message angmsg
      _ ← clean_message rmsg
      pure (if is ang_msg_type angmsg then pos 1 else negsuc 3))
    return_if (nonzero r) (do _ ← clean_message rmsg; pure (negsuc 4))
    _ ← clean_message rmsg
    pure (if is aex_msg_type rmsg then pos 0 else negsuc 5)

  -- The passcode without its NUL. pw_size is an unsigned char.
  unfoldable pub authenticate_passcode : List ℕ → M (State W) ℤ
  unfolding free_pw
  authenticate_passcode passcode = do
    pw ← allocate p (length passcode)
    elim pw [
      | none ↦ pure (negsuc 0)
      | some _ ↦ do
        (r, msg) ← wrapped_send_message p (
            new_msg rrl_msg_type
              (Message.rrl (record { pw_size = length passcode % 256; pw = some passcode })))
        return_if (nonzero r) (do _ ← free_pw msg; pure (negsuc 1))
        _ ← free_pw msg
        await_verdict
    ]

  -- The second half: RMS with a log of five bytes, and its answer.
  unfoldable pub send_log : Msg → M (State W) ℤ
  send_log rmsg = do
    (r, _) ← wrapped_send_message p (
        new_msg rms_msg_type
          (Message.rms (record { log_size = 5; log = 1 ∷ 2 ∷ 3 ∷ 4 ∷ 5 ∷ replicate 33 0 })))
    return_if (nonzero r) (do _ ← clean_message rmsg; pure (negsuc 4))
    _ ← clean_message rmsg
    (r, rmsg) ← wrapped_recv_message p zero_msg
    return_if (nonzero r) (do _ ← clean_message rmsg; pure (negsuc 5))
    return_if (not (is aex_msg_type rmsg)) (do _ ← clean_message rmsg; pure (negsuc 6))
    _ ← clean_message rmsg
    pure (pos 0)

  -- RMS with an empty log is to be answered by an abort and ANG.
  unfoldable pub reset_sync_log : M (State W) ℤ
  reset_sync_log = do
    (r, _) ←
        wrapped_send_message p
          (new_msg rms_msg_type (Message.rms (record { log_size = 0; log = replicate 38 0 })))
    return_if (nonzero r) (pure (negsuc 0))
    (r, rmsg) ← wrapped_recv_message p zero_msg
    return_if (not (equals r 3)) (do _ ← clean_message rmsg; pure (negsuc 1))
    (r, rmsg) ← wrapped_recv_message p zero_msg
    return_if (nonzero r) (do _ ← clean_message rmsg; pure (negsuc 2))
    return_if (not (is ang_msg_type rmsg)) (do _ ← clean_message rmsg; pure (negsuc 3))
    send_log rmsg

  -- The array of the reply becomes the environment's.
  unfoldable pub keep_format : Msg → M (State W) ℤ
  keep_format rmsg = do
    adi ← defined (as_adi rmsg.cont)
    _ ← update_env (λ env. record env { num_params = adi.num_params; params = adi.params })
    _ ← clean_message rmsg
    pure (pos 0)

  unfoldable pub obtain_param_format : M (State W) ℤ
  obtain_param_format = do
    env ← get_env
    elim env.params [
      | some _ ↦ pure (negsuc 3)
      | none ↦ do
        answer ←
            ask p 0
              (new_msg rdi_msg_type (Message.rdi (record { sync_type = env.sync_type; uk = 0x07 })))
              adi_msg_type
        elim answer [ refused r ↦ pure r | reply rmsg ↦ keep_format rmsg ]
    ]

  unfoldable pub state_sync_done : M (State W) ℤ
  state_sync_done = do
    env ← get_env
    answer ←
        ask p 0
          (new_msg rds_msg_type (
            Message.rds
              (record { sync_type = env.sync_type; status = 0x07; null_bytes = 0 ∷ 0 ∷ [] })))
          aex_msg_type
    elim answer [ refused r ↦ pure r | reply rmsg ↦ do _ ← clean_message rmsg; pure (pos 0) ]
