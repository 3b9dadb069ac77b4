-- ===== src/Requests/Length.antt =====
-- Reading whole objects, and the sizes of what the write functions write.
use lib_zdtm_sync.Prelude.{
  ℕ, ◌-◌, ◌≤◌, ◌≡◌, some, List, [], ◌++◌, length, replicate, length-append, length-replicate, arith,
}
use lib_zdtm_sync.Run.{split-append}
use lib_zdtm_sync.Requests.Buffer.{read}
use lib_zdtm_sync.Requests.Kinds.{
  Request, ray, rig, rtg, rrl, rmg, rms, rts, rdi, rsy, rss, rdr, rdd, rds, rqt, rlr, rge,
  IsSendable, encode,
}
use mathlib.Core.List.{append-nil}

pub read_front : (xs ys : List ℕ) → read (length xs) (xs ++ ys) ≡ some xs
read_front xs ys = rw (split-append xs ys, read)

pub read_all : (n : ℕ) (xs : List ℕ) → length xs ≡ n → read n xs ≡ some xs
read_all n xs h = rw (← h) (rw append-nil at (read_front xs []))

-- The largest content is that of a path.
pub length-encode : (r : Request) → IsSendable r → length (encode r) ≤ 65532
unfolding encode
length-encode ray h = omega arith
length-encode rig h = omega arith
length-encode rtg h = omega arith
length-encode (rrl password) h = omega arith
length-encode (rmg uk sync_type) h = omega arith
length-encode (rms log) h = omega (
  arith,
  length-append log (replicate (38 - length log) 0),
  length-replicate {A = ℕ} (38 - length log) 0,
)
length-encode (rts date) h = omega arith
length-encode (rdi sync_type uk) h = omega arith
length-encode (rsy sync_type uk) h = omega arith
length-encode (rss uk_1 sync_type uk_2) h = omega arith
length-encode (rdr sync_type num sync_id) h = omega arith
length-encode (rdd sync_type num sync_id) h = omega arith
length-encode (rds sync_type status null_bytes) h = omega arith
length-encode (rqt null_bytes) h = omega arith
length-encode (rlr sync_type) h = omega arith
length-encode (rge path) h = omega arith
