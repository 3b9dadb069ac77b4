-- ===== src/Msgs/Prepare/Content.antt =====
-- The two chains of _zdtm_prepare_message over the kinds of request: lengths and contents.
use lib_zdtm_sync.Prelude.{
  ℕ, ◌-◌, ◌≡◌, refl, sym, ap, length, replicate, length-append, length-replicate, arith, le→ltb,
}
use lib_zdtm_sync.Prelude.Int.{pos}
use lib_zdtm_sync.Bytes.{Endian, little, big}
use lib_zdtm_sync.Bytes.Order.{store16-little}
use lib_zdtm_sync.Requests.{
  wrote, rrl_length, rrl_write, rmg_length, rmg_write, rms_length, rms_write, rts_length, rts_write,
  rdi_length, rdi_write, rsy_length, rsy_write, rss_length, rss_write, rdr_length, rdr_write,
  rdd_length, rdd_write, rds_length, rds_write, rqt_length, rqt_write, rlr_length, rlr_write,
  rge_length, rge_write,
}
use lib_zdtm_sync.Requests.Kinds.{
  Request, ray, rig, rtg, rrl, rmg, rms, rts, rdi, rsy, rss, rdr, rdd, rds, rqt, rlr, rge,
  IsSendable, IsPortable, message_of, encode,
}
use lib_zdtm_sync.Requests.Length.{read_front, read_all}
use lib_zdtm_sync.Msgs.Prepare.{sized, cont_length, cont_write}
use mathlib.Core.List.{append-nil}

-- The length functions give the length of the content described.
pub cont_length-encode :
    (r : Request) → IsSendable r → cont_length (message_of r) ≡ sized (pos (length (encode r)))
unfolding cont_length encode rrl_length rmg_length rms_length rts_length rdi_length rsy_length
    rss_length rdr_length rdd_length rds_length rqt_length rlr_length rge_length
cont_length-encode ray h = refl
cont_length-encode rig h = refl
cont_length-encode rtg h = refl
cont_length-encode (rrl password) h = ap (λ n. sized (pos n)) (omega arith)
cont_length-encode (rmg uk sync_type) h = refl
cont_length-encode (rms log) h =
    ap (λ n. sized (pos n))
      (omega (
        arith,
        length-append log (replicate (38 - length log) 0),
        length-replicate {A = ℕ} (38 - length log) 0,
      ))
cont_length-encode (rts date) h = ap (λ n. sized (pos n)) (sym h)
cont_length-encode (rdi sync_type uk) h = refl
cont_length-encode (rsy sync_type uk) h = refl
cont_length-encode (rss uk_1 sync_type uk_2) h = refl
cont_length-encode (rdr sync_type num sync_id) h = refl
cont_length-encode (rdd sync_type num sync_id) h = refl
cont_length-encode (rds sync_type status null_bytes) h = ap (λ n. sized (pos n)) (omega arith)
cont_length-encode (rqt null_bytes) h = ap (λ n. sized (pos n)) (sym h)
cont_length-encode (rlr sync_type) h = refl
cont_length-encode (rge path) h = ap (λ n. sized (pos n)) (omega arith)

-- The write functions write the content described.
pub cont_write-encode :
    (e : Endian) (r : Request)
    → IsSendable r
    → IsPortable e r
    → cont_write e (message_of r) ≡ wrote (encode r)
unfolding cont_write encode rrl_write rmg_write rms_write rts_write rdi_write rsy_write rss_write
    rdr_write rdd_write rds_write rqt_write rlr_write rge_write
cont_write-encode e ray h c = refl
cont_write-encode e rig h c = refl
cont_write-encode e rtg h c = refl
cont_write-encode e (rrl password) h c = rw (read_all _ password refl, append-nil)
cont_write-encode e (rmg uk sync_type) h c = refl
cont_write-encode e (rms log) h c = rw (
  le→ltb 38 (length log) h,
  read_front log (replicate (38 - length log) 0),
  store16-little e (length log),
)
cont_write-encode e (rts date) h c = rw (read_all 14 date h, append-nil)
cont_write-encode e (rdi sync_type uk) h c = refl
cont_write-encode e (rsy sync_type uk) h c = refl
cont_write-encode e (rss uk_1 sync_type uk_2) h c = refl
cont_write-encode little (rdr sync_type num sync_id) h c = rw (store16-little little num)
cont_write-encode big (rdr sync_type num sync_id) h c = absurd c
cont_write-encode little (rdd sync_type num sync_id) h c = rw (store16-little little num)
cont_write-encode big (rdd sync_type num sync_id) h c = absurd c
cont_write-encode e (rds sync_type status null_bytes) h c = rw (read_all 2 null_bytes h, append-nil)
cont_write-encode e (rqt null_bytes) h c = rw (read_all 3 null_bytes h, append-nil)
cont_write-encode e (rlr sync_type) h c = refl
cont_write-encode little (rge path) h c = rw (read_all _ path refl, append-nil)
cont_write-encode big (rge path) h c = absurd c
