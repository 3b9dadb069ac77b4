-- ===== src/Net/Send.antt =====
-- Sending (src/zdtm_net.c): the common messages and a general message.
pub mod Wire
pub mod Frame
use lib_zdtm_sync.Prelude.{
  ℕ, zero, suc, ◌+◌, ◌-◌, Option, none, some, Bool, true, false, List, [], ◌∷◌, ◌++◌, ltb, length,
  take,
}
use lib_zdtm_sync.Prelude.Int.{ℤ, pos, negsuc, nonzero}
use lib_zdtm_sync.Bytes.{mem16}
use lib_zdtm_sync.Run.{
  M, Run, ok, fault, spin, pure, defined, ◌>>=◌, ◌>>◌, return_if, split, overlay,
}
use lib_zdtm_sync.Env.{Env, State, get_env, call, free}
use lib_zdtm_sync.Platform.{Platform, allocate}
use lib_zdtm_sync.Requests.{pointee}
use lib_zdtm_sync.Message.{Msg, msg_hdr_size}
use lib_zdtm_sync.Msgs.{ack_message, rqst_message, abrt_message, clean_message}
use lib_zdtm_sync.Msgs.Prepare.{prepare_message}
use lib_zdtm_sync.Log.Dump.{dump_msg_log}

-- COM_MSG_SIZE
abbrev pub com_msg_size : ℕ
com_msg_size = 7

-- RET_MALLOC_FAIL
abbrev pub ret_malloc_fail : ℤ
ret_malloc_fail = negsuc 12

module _ {W : Type 0} (p : Platform W) where
  -- The loop of the two senders, with the number of bytes to send. Every round hands over the bytes
  -- from the start of the buffer on, as many as are still to be sent; where the buffer has fewer, send
  -- reads behind it. `none` is a failed send; the rounds are bounded by `fuel`.
  unfoldable pub send_loop :
      (fuel : ℕ) → ℤ → List ℕ → (total sent : ℕ) → M (State W) (Option (Unit {0}))
  send_loop zero fd wire total sent = λ _. spin
  send_loop (suc fuel) fd wire total sent = elim (ltb sent total) [
    | false ↦ pure (some tt)
    | true ↦ do
      (bytes, _) ← defined (split (total - sent) wire)
      taken ← call (p.send fd bytes)
      elim taken [ none ↦ pure none | some n ↦ send_loop fuel fd wire total (sent + n) ]
  ]

  unfoldable pub send_comm_message_to : ℤ → List ℕ → M (State W) ℤ
  send_comm_message_to fd wire = do
    sent ← send_loop p.send_rounds fd wire com_msg_size 0
    elim sent [ none ↦ pure (negsuc 0) | some _ ↦ pure (pos 0) ]

  unfoldable pub send_ack_message : M (State W) ℤ
  send_ack_message = do env ← get_env; send_comm_message_to env.connfd ack_message

  unfoldable pub send_rqst_message : M (State W) ℤ
  send_rqst_message = do env ← get_env; send_comm_message_to env.connfd rqst_message

  unfoldable pub send_abrt_message : M (State W) ℤ
  send_abrt_message = do env ← get_env; send_comm_message_to env.connfd abrt_message

  -- The block with the bytes of a prepared message: header, body size, type, content and checksum, one
  -- behind the other from its start on. The two numbers are copied as the host stores them. Where the
  -- block is too small the copies write behind it.
  unfoldable pub wire_bytes : Msg → List ℕ → M (State W) (List ℕ)
  wire_bytes msg block = do
    (content, _) ← defined (split msg.cont_size (pointee msg.raw_content))
    defined (
        overlay
          (msg.header
            ++ (mem16 p.order msg.body_size
                ++ (msg.mtype ++ (content ++ mem16 p.order msg.check_sum))))
          block)

  unfoldable pub send_message_to : Msg → ℤ → M (State W) (ℤ × Msg)
  send_message_to msg sockfd = do
    (r, msg) ← prepare_message p msg
    return_if (nonzero r) (do msg ← clean_message msg; pure (negsuc 0, msg))
    let msg_size = msg_hdr_size + 2 + msg.body_size + 2
    block ← allocate p msg_size
    elim block [
      | none ↦ do msg ← clean_message msg; pure (ret_malloc_fail, msg)
      | some b ↦ do
        wire ← wire_bytes msg b
        sent ← send_loop p.send_rounds sockfd wire msg_size 0
        msg ← clean_message msg
        _ ← free (some b)
        pure (elim sent [ none ↦ negsuc 1 | some _ ↦ pos 0 ], msg)
    ]

  unfoldable pub send_message : Msg → M (State W) (ℤ × Msg)
  send_message msg = do _ ← dump_msg_log p msg; env ← get_env; send_message_to msg env.connfd
