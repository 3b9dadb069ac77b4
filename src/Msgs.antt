-- ===== src/Msgs.antt =====
-- The handling of messages (src/zdtm_msgs.c): the common messages, the checksum, preparing a message
-- of the desktop for the wire, and parsing the raw content of one of the Zaurus.
pub mod Prepare
pub mod Parse
pub mod KeepsEnv
pub mod Format
use lib_zdtm_sync.Prelude.{
  ℕ, ◌+◌, ◌%◌, Bool, Option, none, some, List, [], ◌∷◌, ◌++◌, if◌then◌else◌, same_bytes, not,
}
use lib_zdtm_sync.Prelude.Int.{ℤ, pos, negsuc}
use lib_zdtm_sync.Run.{M, Run, ok, fault, spin, pure, defined, ◌>>=◌, split}
use lib_zdtm_sync.Env.{State, free}
use lib_zdtm_sync.Message.{Msg, is, rrl_msg_type, as_rrl, rrl}

-- The three messages of seven bytes.
abbrev pub ack_message : List ℕ
ack_message = 0x00 ∷ 0x00 ∷ 0x00 ∷ 0x00 ∷ 0x00 ∷ 0x96 ∷ 0x06 ∷ []

abbrev pub rqst_message : List ℕ
rqst_message = 0x00 ∷ 0x00 ∷ 0x00 ∷ 0x00 ∷ 0x00 ∷ 0x96 ∷ 0x05 ∷ []

abbrev pub abrt_message : List ℕ
abrt_message = 0x00 ∷ 0x00 ∷ 0x00 ∷ 0x00 ∷ 0x00 ∷ 0x96 ∷ 0x18 ∷ []

-- Of the first seven bytes of a buffer.
unfoldable pub is_ack_message : List ℕ → Bool
is_ack_message buff = same_bytes buff ack_message

unfoldable pub is_rqst_message : List ℕ → Bool
is_rqst_message buff = same_bytes buff rqst_message

unfoldable pub is_abrt_message : List ℕ → Bool
is_abrt_message buff = same_bytes buff abrt_message

-- The additions to a uint16_t.
unfoldable pub sum_bytes : ℕ → List ℕ → ℕ
sum_bytes acc [] = acc
sum_bytes acc (x ∷ xs) = sum_bytes ((acc + x) % 65536) xs

module _ {W : Type 0} where
  -- Over the type and the first cont_size bytes of the raw content.
  unfoldable pub checksum : Msg → M (State W) ℕ
  unfolding sum_bytes
  checksum msg = do
    (content, _) ← defined (split msg.cont_size (elim msg.raw_content [ none ↦ [] | some b ↦ b ]))
    pure (sum_bytes (sum_bytes 0 msg.mtype) content)

  -- The password of an RRL message is freed with it.
  clean_rrl : Msg → M (State W) Msg
  clean_rrl msg =
      if is rrl_msg_type msg
      then (do
        c ← defined (as_rrl msg.cont)
        _ ← free c.pw
        pure (record msg { cont = rrl (record c { pw = none }) }))
      else pure msg

  unfoldable pub clean_message : Msg → M (State W) Msg
  unfolding clean_rrl
  clean_message msg = do _ ← free msg.raw_content; clean_rrl (record msg { raw_content = none })
