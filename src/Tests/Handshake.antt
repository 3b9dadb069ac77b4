-- ===== src/Tests/Handshake.antt =====
-- A whole handshake, and what goes wrong in one, on the simulated host.
use lib_zdtm_sync.Prelude.{ℕ, ◌+◌, ◌≡◌, ◌≢◌, refl, List, [], ◌∷◌, ◌++◌, length, replicate, some}
use lib_zdtm_sync.Prelude.Int.{ℤ, pos, negsuc}
use lib_zdtm_sync.Run.{Run, ok, fault, spin}
use lib_zdtm_sync.Bytes.{little, mem16}
use lib_zdtm_sync.Env.{Env, State}
use lib_zdtm_sync.Platform.{Platform}
use lib_zdtm_sync.Message.{
  aay_msg_type, aig_msg_type, amg_msg_type, atg_msg_type, aex_msg_type, adi_msg_type,
}
use lib_zdtm_sync.Msgs.{ack_message, rqst_message}
use lib_zdtm_sync.Sync.Initiate.{initiate_sync}
use lib_zdtm_sync.Sync.Once.{initiate_sync-again}
use lib_zdtm_sync.Tests.Host.{World, host, whole, start_env, first_seven, last_six}
use lib_zdtm_sync.Bytes.{load16, store16}
use lib_zdtm_sync.Log.{write_log}
use lib_zdtm_sync.Log.Dump.{dump_msg_log, dump_rows, emit}
use lib_zdtm_sync.Msgs.{checksum, clean_message, is_abrt_message, is_ack_message, is_rqst_message}
use lib_zdtm_sync.Msgs.Parse.{parse_raw_msg}
use lib_zdtm_sync.Msgs.Prepare.{
  build_message, cont_length, cont_write, fill_message, prepare_message,
}
use lib_zdtm_sync.Net.{conn_to_zaurus, handle_zaurus_conn}
use lib_zdtm_sync.Net.Recv.{
  finish_message, read_body, recv_body, recv_loop, recv_message, store_body,
}
use lib_zdtm_sync.Net.Send.{
  send_ack_message, send_comm_message_to, send_loop, send_message, send_message_to,
  send_rqst_message, wire_bytes,
}
use lib_zdtm_sync.Net.Wrapped.{wrapped_recv_message, wrapped_send_message}
use lib_zdtm_sync.Proto.{ask, await, connect}
use lib_zdtm_sync.Proto.Session.{
  keep_format, keep_info, obtain_device_info, obtain_param_format, obtain_sync_state, set_slow_sync,
}
use lib_zdtm_sync.Proto.Time.{obtain_last_time_synced, set_last_time_synced, use_time}
use lib_zdtm_sync.Replies.{
  parse_raw_aay_msg, parse_raw_aig_msg, parse_raw_amg_msg, parse_raw_atg_msg,
}
use lib_zdtm_sync.Replies.Adi.{
  parse_raw_adi_msg, read_abrevs, read_descs, read_format, read_type_ids,
}
use lib_zdtm_sync.Requests.{rdi_length, rdi_write, rmg_length, rmg_write, rts_length, rts_write}
use lib_zdtm_sync.Sync.Initiate.{
  authenticate, await_aay, check_cur_auth_state, copy_descs, greet, if_slow, need_device_info,
  need_sync_state, prepare_sync, record_sync, requires_slow_sync, slow_sync_flag,
}

-- A message of the device.
abbrev frame : List ℕ → List ℕ → List ℕ
frame mtype content =
    first_seven
    ++ (last_six ++ (mem16 little (3 + length content) ++ (mtype ++ (content ++ (0 ∷ 0 ∷ [])))))

-- What the device says where it is asked: that it is ready for the request, that it has it, and the
-- answer.
abbrev answer : List ℕ → List ℕ → List ℕ
answer mtype content = rqst_message ++ (ack_message ++ frame mtype content)

abbrev info : List ℕ
info = answer aig_msg_type (1 ∷ 0 ∷ b'Z' ∷ replicate 14 0)

-- One parameter, SYID, with a description of two bytes.
abbrev format : List ℕ
format =
    answer adi_msg_type
      (replicate 4 0 ++ (1 ∷ 0 ∷ 0 ∷ b'S' ∷ b'Y' ∷ b'I' ∷ b'D' ∷ 0x12 ∷ 2 ∷ 0 ∷ b'I' ∷ b'D' ∷ []))

abbrev greeting : List ℕ
greeting = ack_message ++ frame aay_msg_type (replicate 3 0)

abbrev session : List ℕ
session =
    greeting
    ++ (info
        ++ (info
            ++ (answer amg_msg_type (1 ∷ 6 ∷ 7 ∷ replicate 46 0)
                ++ (answer atg_msg_type (replicate 14 b'1')
                    ++ (answer aex_msg_type [] ++ format)))))

abbrev clock : Platform World
clock = record (host little whole) {
  localtime_r = λ t w. (
    some (record {
      year = pos 107;
      mon = pos 0;
      mday = pos 1;
      hour = pos 0;
      min = pos 0;
      sec = pos 0;
      isdst = pos 0;
    }),
    w,
  );
  format_time = λ tm. some (14, replicate 15 b'0');
}

abbrev ready_env : Env
ready_env = record start_env { sync_type = 6; zaurus_ip = replicate 16 1 }

abbrev state : Env → List ℕ → State World
state env b = record { env = env; sys = record { incoming = b; outgoing = [] }; blocks = 0 }

-- The state behind a run that returns.
abbrev after : State World → Run (State World) ℤ → State World
after s (ok r t) = t
after s fault = s
after s spin = s

abbrev begun : State World
begun = state ready_env session

-- An environment that holds a parameter format from before.
abbrev once : State World
once = state (record ready_env { params = some [] }) session

-- The first handshake succeeds, and the second is refused where it comes to the format.
both_run :
    (initiate_sync clock begun ≡ ok (pos 0) (after begun (initiate_sync clock begun)))
    × (initiate_sync clock once ≡ ok (negsuc 15) (after once (initiate_sync clock once)))
unfolding ask authenticate await await_aay build_message check_cur_auth_state checksum clean_message
    conn_to_zaurus connect cont_length cont_write copy_descs dump_msg_log dump_rows emit
    fill_message finish_message greet handle_zaurus_conn if_slow initiate_sync is_abrt_message
    is_ack_message is_rqst_message keep_format keep_info load16 need_device_info need_sync_state
    obtain_device_info obtain_last_time_synced obtain_param_format obtain_sync_state
    parse_raw_aay_msg parse_raw_adi_msg parse_raw_aig_msg parse_raw_amg_msg parse_raw_atg_msg
    parse_raw_msg prepare_message prepare_sync rdi_length rdi_write read_abrevs read_body read_descs
    read_format read_type_ids record_sync recv_body recv_loop recv_message requires_slow_sync
    rmg_length rmg_write rts_length rts_write send_ack_message send_comm_message_to send_loop
    send_message send_message_to send_rqst_message set_last_time_synced set_slow_sync slow_sync_flag
    store16 store_body use_time wire_bytes wrapped_recv_message wrapped_send_message write_log
both_run = (refl, refl)

initiate_sync-again_example : negsuc 15 ≢ pos 0
initiate_sync-again_example =
    initiate_sync-again clock [] once (after once (initiate_sync clock once)) (negsuc 15) both_run.1
      refl
