-- ===== src/Requests.antt =====
-- The messages that the desktop sends: for each kind its length function and its write function
-- (src/zdtm_rrl_msg.c, zdtm_rmg_msg.c, zdtm_rms_msg.c, zdtm_rts_msg.c, zdtm_rdi_msg.c,
-- zdtm_rsy_msg.c, zdtm_rss_msg.c, zdtm_rdr_msg.c, zdtm_rdd_msg.c, zdtm_rds_msg.c, zdtm_rqt_msg.c,
-- zdtm_rlr_msg.c, zdtm_rge_msg.c). The child Rdw has zdtm_rdw_msg.c and the todo item. A write
-- function gives the bytes that it puts at the start of the buffer.
mod Buffer
pub mod Rdw
pub mod Kinds
pub mod Todo
pub mod Length
pub use Buffer.*
use lib_zdtm_sync.Prelude.{
  ℕ, ◌+◌, ◌-◌, ◌%◌, Option, none, some, List, [], ◌∷◌, ◌++◌, if◌then◌else◌, ltb, replicate,
}
use lib_zdtm_sync.Bytes.{Endian, little, big, mem16, mem32, store16, store32, liltobigs}
use lib_zdtm_sync.Contents.{Rrl, Rmg, Rms, Rts, Rdi, Rsy, Rss, Rdr, Rdd, Rds, Rqt, Rlr, Rge}

-- A password: its size in one byte, and its bytes.
unfoldable pub rrl_length : Rrl → ℕ
rrl_length rrl = 1 + rrl.pw_size

unfoldable pub rrl_write : Rrl → Written
rrl_write rrl = copy (rrl.pw_size ∷ []) (read rrl.pw_size (pointee rrl.pw)) []

unfoldable pub rmg_length : Rmg → ℕ
rmg_length rmg = 2

unfoldable pub rmg_write : Rmg → Written
rmg_write rmg = wrote (rmg.uk ∷ rmg.sync_type ∷ [])

-- RMS_LOG_SIZE
abbrev pub rms_log_size : ℕ
rms_log_size = 38

unfoldable pub rms_length : Rms → ℕ
rms_length rms = 2 + rms_log_size

-- A log that is too long makes it return NULL before the first byte.
unfoldable pub rms_write : Endian → Rms → Written
rms_write e rms =
    if ltb rms_log_size rms.log_size
    then null_after []
    else copy (store16 e rms.log_size) (read rms.log_size rms.log)
        (replicate (rms_log_size - rms.log_size) 0)

-- RTS_DATE_LEN
abbrev pub rts_date_len : ℕ
rts_date_len = 14

unfoldable pub rts_length : Rts → ℕ
rts_length rts = rts_date_len

unfoldable pub rts_write : Rts → Written
rts_write rts = copy [] (read rts_date_len rts.date) []

unfoldable pub rdi_length : Rdi → ℕ
rdi_length rdi = 2

unfoldable pub rdi_write : Rdi → Written
rdi_write rdi = wrote (rdi.sync_type ∷ rdi.uk ∷ [])

unfoldable pub rsy_length : Rsy → ℕ
rsy_length rsy = 2

unfoldable pub rsy_write : Rsy → Written
rsy_write rsy = wrote (rsy.sync_type ∷ rsy.uk ∷ [])

unfoldable pub rss_length : Rss → ℕ
rss_length rss = 3

unfoldable pub rss_write : Rss → Written
rss_write rss = wrote (rss.uk_1 ∷ rss.sync_type ∷ rss.uk_2 ∷ [])

-- The store of a sync id in an RDR, RDD or RDW message. A big-endian build passes the uint32_t
-- through the conversion of a uint16_t.
unfoldable pub store_sync_id : Endian → ℕ → List ℕ
store_sync_id little sync_id = mem32 little sync_id
store_sync_id big sync_id = mem32 big (liltobigs big (sync_id % 65536))

unfoldable pub rdr_length : Rdr → ℕ
rdr_length rdr = 1 + 2 + 4

unfoldable pub rdr_write : Endian → Rdr → Written
unfolding store_sync_id
rdr_write e rdr =
    wrote (rdr.sync_type ∷ (store16 e rdr.num_sync_ids ++ store_sync_id e rdr.sync_id))

unfoldable pub rdd_length : Rdd → ℕ
rdd_length rdd = 1 + 2 + 4

unfoldable pub rdd_write : Endian → Rdd → Written
unfolding store_sync_id
rdd_write e rdd =
    wrote (rdd.sync_type ∷ (store16 e rdd.num_sync_ids ++ store_sync_id e rdd.sync_id))

unfoldable pub rds_length : Rds → ℕ
rds_length rds = 4

unfoldable pub rds_write : Rds → Written
rds_write rds = copy (rds.sync_type ∷ rds.status ∷ []) (read 2 rds.null_bytes) []

unfoldable pub rqt_length : Rqt → ℕ
rqt_length rqt = 3

unfoldable pub rqt_write : Rqt → Written
rqt_write rqt = copy [] (read 3 rqt.null_bytes) []

unfoldable pub rlr_length : Rlr → ℕ
rlr_length rlr = 1

unfoldable pub rlr_write : Rlr → Written
rlr_write rlr = wrote (rlr.sync_type ∷ [])

-- The length of the path is stored in the host's byte order.
unfoldable pub rge_length : Rge → ℕ
rge_length rge = 2 + rge.path_len

unfoldable pub rge_write : Endian → Rge → Written
rge_write e rge = copy (mem16 e rge.path_len) (read rge.path_len (pointee rge.path)) []
