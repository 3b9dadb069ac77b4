-- ===== src/Msgs/Prepare.antt =====
-- _zdtm_prepare_message of src/zdtm_msgs.c: sizes, header, raw content and checksum of a message of
-- the desktop.
pub mod Frame
mod Content
use lib_zdtm_sync.Prelude.{
  ℕ, ◌+◌, ◌-◌, ◌*◌, ◌%◌, ◌||◌, Option, none, some, List, [], ◌∷◌, ◌++◌, if◌then◌else◌, take, drop,
}
use lib_zdtm_sync.Prelude.Int.{ℤ, pos, negsuc}
use lib_zdtm_sync.Bytes.{Endian, store16}
use lib_zdtm_sync.Run.{
  M, ok, fault, spin, pure, undefined, defined, ◌>>=◌, ◌>>◌, return_if, overlay,
}
use lib_zdtm_sync.Env.{State}
use lib_zdtm_sync.Platform.{Platform, allocate}
use lib_zdtm_sync.Requests.{
  Written, wrote, null_after, invalid, rrl_length, rrl_write, rmg_length, rmg_write, rms_length,
  rms_write, rts_length, rts_write, rdi_length, rdi_write, rsy_length, rsy_write, rss_length,
  rss_write, rdr_length, rdr_write, rdd_length, rdd_write, rds_length, rds_write, rqt_length,
  rqt_write, rlr_length, rlr_write, rge_length, rge_write,
}
use lib_zdtm_sync.Requests.Rdw.{rdw_length, rdw_write, ret_unk_type}
use lib_zdtm_sync.Message.{
  Msg, is, msg_type_size, rrl_msg_type, rmg_msg_type, rms_msg_type, rts_msg_type, rdi_msg_type,
  rsy_msg_type, rss_msg_type, rdr_msg_type, rdw_msg_type, rdd_msg_type, rds_msg_type, rqt_msg_type,
  rlr_msg_type, rge_msg_type, ray_msg_type, rig_msg_type, rtg_msg_type, as_rrl, as_rmg, as_rms,
  as_rts, as_rdi, as_rsy, as_rss, as_rdr, as_rdw, as_rdd, as_rds, as_rqt, as_rlr, as_rge,
}
use lib_zdtm_sync.Msgs.{checksum}

-- DMSG_HDR of src/zdtm_types.c.
abbrev pub dmsg_hdr : List ℕ
dmsg_hdr =
    0x00 ∷ 0x00 ∷ 0x00 ∷ 0x00 ∷ 0x00 ∷ 0x96 ∷ 0x01 ∷ 0x01 ∷ 0x0c ∷ 0xff ∷ 0xff ∷ 0x00 ∷ 0x00 ∷ []

-- The header with a content size at MSG_HDR_CONT_OFFSET.
abbrev pub header_with : List ℕ → List ℕ
header_with size = take 9 dmsg_hdr ++ (size ++ drop 11 dmsg_hdr)

-- What the length function of a message's type says; `unknown` is a type that has none, `mismatch` a
-- member of the union that was not stored.
pub data Sized : Type 0 where
  sized : ℤ → Sized
  unknown : Sized
  mismatch : Sized

abbrev pub size_by : {A : Type 0} → Option A → (A → ℤ) → Sized
size_by none f = mismatch
size_by (some c) f = sized (f c)

unfoldable pub cont_length : Msg → Sized
cont_length m =
    if is rrl_msg_type m
    then size_by (as_rrl m.cont) (λ c. pos (rrl_length c))
    else if is rmg_msg_type m
    then size_by (as_rmg m.cont) (λ c. pos (rmg_length c))
    else if is rms_msg_type m
    then size_by (as_rms m.cont) (λ c. pos (rms_length c))
    else if is rts_msg_type m
    then size_by (as_rts m.cont) (λ c. pos (rts_length c))
    else if is rdi_msg_type m
    then size_by (as_rdi m.cont) (λ c. pos (rdi_length c))
    else if is rsy_msg_type m
    then size_by (as_rsy m.cont) (λ c. pos (rsy_length c))
    else if is rss_msg_type m
    then size_by (as_rss m.cont) (λ c. pos (rss_length c))
    else if is rdr_msg_type m
    then size_by (as_rdr m.cont) (λ c. pos (rdr_length c))
    else if is rdw_msg_type m
    then size_by (as_rdw m.cont) rdw_length
    else if is rdd_msg_type m
    then size_by (as_rdd m.cont) (λ c. pos (rdd_length c))
    else if is rds_msg_type m
    then size_by (as_rds m.cont) (λ c. pos (rds_length c))
    else if is rqt_msg_type m
    then size_by (as_rqt m.cont) (λ c. pos (rqt_length c))
    else if is rlr_msg_type m
    then size_by (as_rlr m.cont) (λ c. pos (rlr_length c))
    else if is rge_msg_type m
    then size_by (as_rge m.cont) (λ c. pos (rge_length c))
    else if is ray_msg_type m || is rig_msg_type m || is rtg_msg_type m
    then sized (pos 0)
    else unknown

abbrev pub write_by : {A : Type 0} → Option A → (A → Written) → Written
write_by none f = invalid
write_by (some c) f = f c

unfoldable pub cont_write : Endian → Msg → Written
cont_write e m =
    if is rrl_msg_type m
    then write_by (as_rrl m.cont) rrl_write
    else if is rmg_msg_type m
    then write_by (as_rmg m.cont) rmg_write
    else if is rms_msg_type m
    then write_by (as_rms m.cont) (rms_write e)
    else if is rts_msg_type m
    then write_by (as_rts m.cont) rts_write
    else if is rdi_msg_type m
    then write_by (as_rdi m.cont) rdi_write
    else if is rsy_msg_type m
    then write_by (as_rsy m.cont) rsy_write
    else if is rss_msg_type m
    then write_by (as_rss m.cont) rss_write
    else if is rdr_msg_type m
    then write_by (as_rdr m.cont) (rdr_write e)
    else if is rdw_msg_type m
    then write_by (as_rdw m.cont) (rdw_write e)
    else if is rdd_msg_type m
    then write_by (as_rdd m.cont) (rdd_write e)
    else if is rds_msg_type m
    then write_by (as_rds m.cont) rds_write
    else if is rqt_msg_type m
    then write_by (as_rqt m.cont) rqt_write
    else if is rlr_msg_type m
    then write_by (as_rlr m.cont) rlr_write
    else if is rge_msg_type m
    then write_by (as_rge m.cont) (rge_write e)
    else wrote []

-- `body_size += length`, in a uint16_t.
abbrev pub add_u16 : ℕ → ℤ → ℕ
add_u16 n (pos k) = (n + k) % 65536
add_u16 n (negsuc k) = (n + (65536 - (k + 1) % 65536)) % 65536

-- RET_NNULL_RAW
abbrev pub ret_nnull_raw : ℤ
ret_nnull_raw = negsuc 6

module _ {W : Type 0} (p : Platform W) where
  -- The raw content and the checksum, in a block that malloc has given. Only the NULL of an RDW
  -- message is looked at.
  unfoldable pub fill_message : Msg → List ℕ → M (State W) (ℤ × Msg)
  fill_message msg block = elim (cont_write p.order msg) [
    | invalid ↦ undefined
    | null_after b ↦ do
      content ← defined (overlay b block)
      let msg : Msg = record msg { raw_content = some content }
      return_if (is rdw_msg_type msg) (pure (ret_unk_type, msg))
      s ← checksum msg
      pure (pos 0, record msg { check_sum = s })
    | wrote b ↦ do
      content ← defined (overlay b block)
      let msg : Msg = record msg { raw_content = some content }
      s ← checksum msg
      pure (pos 0, record msg { check_sum = s })
  ]

  -- From the body size and the content size on.
  unfoldable pub build_message : Msg → ℕ → ℕ → M (State W) (ℤ × Msg)
  build_message m body cont =
      let msg : Msg = record m {
        body_size = body;
        cont_size = cont;
        header = header_with (store16 p.order cont);
      } in
      elim msg.raw_content [
        | some _ ↦ pure (ret_nnull_raw, msg)
        | none ↦ do
          block ← allocate p cont
          elim block [ none ↦ pure (negsuc 0, msg) | some b ↦ fill_message msg b ]
      ]

  unfoldable pub prepare_message : Msg → M (State W) (ℤ × Msg)
  prepare_message msg = elim (cont_length msg) [
    | mismatch ↦ undefined
    | unknown ↦ pure (ret_unk_type, record msg { body_size = msg_type_size })
    | sized k ↦
        let body = add_u16 msg_type_size k in
        build_message msg body ((body + 65536 - msg_type_size) % 65536)
  ]
