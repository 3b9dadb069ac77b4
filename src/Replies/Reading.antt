-- ===== src/Replies/Reading.antt =====
-- Reading a raw content from a pointer that moves on. Reading behind the end of the content is
-- undefined behaviour.
use lib_zdtm_sync.Prelude.{ℕ, ◌%◌, List, [], ◌∷◌}
use lib_zdtm_sync.Bytes.{Endian, little, big, val16, liltobigl}
use lib_zdtm_sync.Run.{M, ok, fault, defined, split}

module _ {S : Type 0} where
  abbrev pub take_bytes : ℕ → List ℕ → M S (List ℕ × List ℕ)
  take_bytes n b = defined (split n b)

  abbrev pub take_byte : List ℕ → M S (ℕ × List ℕ)
  take_byte [] s = fault
  take_byte (x ∷ b) s = ok (x, b) s

-- `zdtm_liltobigl(*((uint16_t *)buf))`, stored in a uint16_t.
unfoldable pub load16_by_long : Endian → List ℕ → ℕ
load16_by_long little b = val16 little b
load16_by_long big b = liltobigl big (val16 big b) % 65536
