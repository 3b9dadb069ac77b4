-- ===== src/Replies/Asy/Lists.antt =====
-- The lists of zdtm_parse_raw_asy_msg over an independent description of their bytes.
use lib_zdtm_sync.Prelude.{ℕ, ◌*◌, ◌<◌, ◌≡◌, refl, sym, ap, ◌∙◌, some, List, [], ◌∷◌, ◌++◌, length}
use lib_zdtm_sync.Bytes.{Endian, little, mem16, mem32}
use lib_zdtm_sync.Bytes.Order.{load16-mem16, load32-mem32}
use lib_zdtm_sync.Run.{ok, ◌>>=◌}
use lib_zdtm_sync.Env.{State}
use lib_zdtm_sync.Platform.{Platform, NeverFull}
use lib_zdtm_sync.Platform.Blocks.{after_malloc, malloc-some}
use lib_zdtm_sync.Replies.Asy.{read_ids, read_list}
use mathlib.Core.List.{append-nil}

-- A list of sync ids as the device has it.
pub record IdList : Type 0 where
  pub list_id : ℕ
  pub sync_ids : List ℕ

-- The bytes of the ids, and of a list: its id, the number of its ids, and the ids.
abbrev pub ids_bytes : List ℕ → List ℕ
ids_bytes [] = []
ids_bytes (i ∷ ids) = mem32 little i ++ ids_bytes ids

abbrev pub encode : IdList → List ℕ
encode l = l.list_id ∷ (mem16 little (length l.sync_ids) ++ ids_bytes l.sync_ids)

-- Ids that fit their field.
abbrev pub FitsIds : List ℕ → Type 0
FitsIds [] = Unit
FitsIds (i ∷ ids) = (i < 4294967296) × FitsIds ids

abbrev pub IsList : IdList → Type 0
IsList l = (length l.sync_ids < 65536) × FitsIds l.sync_ids

read_ids-encode :
    {W : Type 0} (e : Endian) (ids rest : List ℕ) (s : State W)
    → FitsIds ids
    → read_ids e (length ids) (ids_bytes ids ++ rest) s ≡ ok (ids, rest) s
unfolding read_ids
read_ids-encode e [] rest s h = refl
read_ids-encode e (i ∷ ids) rest s (h, hs) =
    rw (read_ids-encode e ids rest s hs, load32-mem32 e i h, read_ids, ◌>>=◌) refl

module _ {W : Type 0} (p : Platform W) where
  pub read_list-encode :
      (l : IdList) (rest : List ℕ) (s : State W)
      → NeverFull p
      → IsList l
      → read_list p (encode l ++ rest) s
        ≡ ok
            (l.list_id, length l.sync_ids, some l.sync_ids, rest)
            (after_malloc p (4 * length l.sync_ids) s)
  unfolding read_list
  read_list-encode l rest s full (h, hs) =
      let n = length l.sync_ids in
      let (block, alloc) = malloc-some p full (4 * n) s.sys in
      rw
        (
          load16-mem16 p.order n h,
          alloc,
          load16-mem16 p.order n h,
          read_ids-encode p.order l.sync_ids rest (after_malloc p (4 * n) s) hs,
          read_list,
          ◌>>=◌,
        )
        (rw (load16-mem16 p.order n h) refl)

  pub read_list-last :
      (l : IdList) (s : State W)
      → NeverFull p
      → IsList l
      → read_list p (encode l) s
        ≡ ok
            (l.list_id, length l.sync_ids, some l.sync_ids, [])
            (after_malloc p (4 * length l.sync_ids) s)
  read_list-last l s full h =
      ap (λ b. read_list p b s) (sym (append-nil (encode l))) ∙ read_list-encode l [] s full h
