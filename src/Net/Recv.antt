-- ===== src/Net/Recv.antt =====
-- Receiving (_zdtm_recv_message of src/zdtm_net.c).
pub mod Stream
pub mod Start
pub mod Frame
pub mod Store
pub mod Whole
pub mod Reply
pub mod Short
use lib_zdtm_sync.Prelude.{
  ℕ, zero, suc, ◌+◌, ◌-◌, ◌%◌, Option, none, some, Bool, true, false, List, [], ◌∷◌, ◌++◌, ltb,
  length, take, drop, if◌then◌else◌, ◌==◌,
}
use lib_zdtm_sync.Prelude.Int.{ℤ, pos, negsuc, nonzero}
use lib_zdtm_sync.Bytes.{load16}
use lib_zdtm_sync.Run.{
  M, Run, ok, fault, spin, pure, undefined, defined, ◌>>=◌, ◌>>◌, return_if, split,
}
use lib_zdtm_sync.Env.{Env, State, get_env, call, free}
use lib_zdtm_sync.Platform.{Platform, allocate}
use lib_zdtm_sync.Message.{Msg, msg_hdr_size, msg_type_size, com_msg_size}
use lib_zdtm_sync.Msgs.{is_ack_message, is_rqst_message, is_abrt_message}
use lib_zdtm_sync.Msgs.Parse.{parse_raw_msg}
use lib_zdtm_sync.Log.Dump.{dump_msg_log}

-- How one of the three loops ends: with the buffer filled, or with the code of the function.
pub data Filled : Type 0 where
  filled : List ℕ → Filled
  broken : ℤ → Filled

-- RET_MEM_CONTENT and RET_PARSE_RAW_FAIL
abbrev pub ret_mem_content : ℤ
ret_mem_content = negsuc 8

abbrev pub ret_parse_raw_fail : ℤ
ret_parse_raw_fail = negsuc 13

module _ {W : Type 0} (p : Platform W) where
  -- `while (tot_bytes_read < bytes_to_read)`, with what was read so far. Each round reads a byte at
  -- least, so `bytes_to_read + 1` rounds are enough. More bytes than asked for would run over the end
  -- of the buffer.
  unfoldable pub recv_loop : (fuel : ℕ) → ℤ → ℕ → List ℕ → M (State W) Filled
  recv_loop zero fd size got = λ _. spin
  recv_loop (suc fuel) fd size got = elim (ltb (length got) size) [
    | false ↦ pure (filled got)
    | true ↦ do
      bytes ← call (p.recv fd (size - length got))
      elim bytes [
        | none ↦ pure (broken (negsuc 2))
        | some [] ↦ pure (broken (if length got == 0 then negsuc 0 else negsuc 1))
        | some (x ∷ xs) ↦
            if ltb (size - length got) (length (x ∷ xs))
            then undefined
            else recv_loop fuel fd size (got ++ (x ∷ xs))
      ]
  ]

  -- Once all fields of the message are there: its raw content is parsed, and the message logged.
  unfoldable pub finish_message : Msg → M (State W) (ℤ × Msg)
  finish_message msg = do
    (r, msg) ← parse_raw_msg p msg
    return_if (nonzero r) (pure (ret_parse_raw_fail, msg))
    _ ← dump_msg_log p msg
    pure (pos 0, msg)

  -- From the bytes of the body and of the checksum to the fields of the message and its content. A
  -- body of less than the three bytes of a type makes cont_size wrap.
  unfoldable pub store_body :
      Msg → (header buff : List ℕ) → (body_size check_sum : ℕ) → M (State W) (ℤ × Msg)
  store_body msg header buff body_size check_sum = do
    (mtype, rest) ← defined (split msg_type_size buff)
    let cont_size = (body_size + 65536 - msg_type_size) % 65536
    let msg : Msg = record msg {
      header = take msg_hdr_size header;
      body_size = body_size;
      mtype = mtype;
      cont_size = cont_size;
    }
    stored ←
        (if ltb 0 cont_size
          then (do
            block ← allocate p cont_size
            elim block [
              | none ↦ pure none
              | some _ ↦ do
                (content, _) ← defined (split cont_size rest)
                pure (some (record msg { raw_content = some content }))
            ])
          else pure (some msg))
    _ ← free (some buff)
    elim stored [
      | none ↦ pure (ret_mem_content, msg)
      | some msg ↦ finish_message (record msg { check_sum = check_sum })
    ]

  -- The body and its checksum, read into the block.
  unfoldable pub read_body : Msg → (header block : List ℕ) → ℕ → ℤ → M (State W) (ℤ × Msg)
  read_body msg header block body_size fd = do
    body ← recv_loop (body_size + 3) fd (body_size + 2) []
    elim body [
      | broken r ↦ do _ ← free (some block); pure (r, msg)
      | filled buff ↦
          let check_sum = load16 p.order (drop body_size buff) in
          elim msg.raw_content [
            | some _ ↦ do _ ← free (some block); pure (negsuc 5, msg)
            | none ↦ store_body msg header buff body_size check_sum
          ]
    ]

  -- Once the header and the body size are there.
  unfoldable pub recv_body : Msg → List ℕ → M (State W) (ℤ × Msg)
  recv_body msg header = do
    env ← get_env
    let body_size = load16 p.order (drop msg_hdr_size header)
    block ← allocate p (body_size + 2)
    elim block [
      | none ↦ pure (negsuc 3, msg)
      | some b ↦ read_body msg header b body_size env.connfd
    ]

  -- No caller in the library passes NULL for the message, so the result -5 does not arise.
  unfoldable pub recv_message : Msg → M (State W) (ℤ × Msg)
  recv_message msg = do
    env ← get_env
    start ← recv_loop (com_msg_size + 1) env.connfd com_msg_size []
    elim start [
      | broken r ↦ pure (r, msg)
      | filled common ↦ do
        return_if (is_ack_message common) (pure (pos 1, msg))
        return_if (is_rqst_message common) (pure (pos 2, msg))
        return_if (is_abrt_message common) (pure (pos 3, msg))
        rest ← recv_loop (msg_hdr_size + 3) env.connfd (msg_hdr_size + 2) common
        elim rest [ broken r ↦ pure (r, msg) | filled header ↦ recv_body msg header ]
    ]
