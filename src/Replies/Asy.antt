-- ===== src/Replies/Asy.antt =====
-- The message with the three lists of sync ids (src/zdtm_asy_msg.c).
pub mod Lists
use lib_zdtm_sync.Prelude.{ℕ, zero, suc, ◌*◌, Option, none, some, List, [], ◌∷◌}
use lib_zdtm_sync.Prelude.Int.{ℤ, pos, negsuc}
use lib_zdtm_sync.Bytes.{Endian, load16, load32}
use lib_zdtm_sync.Run.{M, pure, ◌>>=◌}
use lib_zdtm_sync.Env.{State, free}
use lib_zdtm_sync.Platform.{Platform, allocate}
use lib_zdtm_sync.Contents.{Asy}
use lib_zdtm_sync.Replies.Reading.{take_bytes, take_byte}

-- The loop over the ids of one list.
unfoldable pub read_ids : {W : Type 0} → Endian → ℕ → List ℕ → M (State W) (List ℕ × List ℕ)
read_ids e zero buf = pure ([], buf)
read_ids e (suc n) buf = do
  (id, buf) ← take_bytes 4 buf
  (rest, buf) ← read_ids e n buf
  pure (load32 e id ∷ rest, buf)

module _ {W : Type 0} (p : Platform W) where
  -- One list: its id, its size, and its ids, if malloc gives the room for them.
  unfoldable pub read_list : List ℕ → M (State W) (ℕ × ℕ × Option (List ℕ) × List ℕ)
  unfolding read_ids
  read_list buf = do
    (list_id, buf) ← take_byte buf
    (num, buf) ← take_bytes 2 buf
    let n = load16 p.order num
    block ← allocate p (4 * n)
    elim block [
      | none ↦ pure (list_id, n, none, buf)
      | some _ ↦ do (ids, buf) ← read_ids p.order n buf; pure (list_id, n, some ids, buf)
    ]

  unfoldable pub parse_raw_asy_msg : List ℕ → Asy → M (State W) (ℤ × Asy)
  unfolding read_list
  parse_raw_asy_msg buf asy = do
    (id, n, ids, buf) ← read_list buf
    let asy1 : Asy = record asy { new_list_id = id; num_new_sync_ids = n; new_sync_ids = ids }
    elim ids [
      | none ↦ pure (negsuc 0, asy1)
      | some new ↦ do
        (id, n, ids, buf) ← read_list buf
        let asy2 : Asy = record asy1 { mod_list_id = id; num_mod_sync_ids = n; mod_sync_ids = ids }
        elim ids [
          | none ↦ do _ ← free (some new); pure (negsuc 1, asy2)
          | some mod' ↦ do
            (id, n, ids, buf) ← read_list buf
            let asy3 : Asy = record asy2 {
              del_list_id = id;
              num_del_sync_ids = n;
              del_sync_ids = ids;
            }
            elim ids [
              | none ↦ do _ ← free (some new); _ ← free (some mod'); pure (negsuc 2, asy3)
              | some del ↦ pure (pos 0, asy3)
            ]
        ]
    ]
