-- ===== src/Bytes.antt =====
-- Bytes of machine integers: how a host of either byte order stores a uint16_t and a uint32_t in
-- memory, and the conversions of src/zdtm_common.c (zdtm_liltobigs, zdtm_liltobigl and the two that
-- call them). A byte is a number below 256.
pub mod Order
use lib_zdtm_sync.Prelude.{ℕ, ◌+◌, ◌*◌, ◌/◌, ◌%◌, ◌<◌, List, [], ◌∷◌}
use mathlib.Core.List.{reverse}

-- The host's byte order; `big` is a build with WORDS_BIGENDIAN.
pub data Endian : Type 0 where
  little big : Endian

-- The object representation of a uint16_t and of a uint32_t.
abbrev pub mem16 : Endian → ℕ → List ℕ
mem16 little v = v % 256 ∷ v / 256 % 256 ∷ []
mem16 big v = v / 256 % 256 ∷ v % 256 ∷ []

abbrev pub mem32 : Endian → ℕ → List ℕ
mem32 little v = v % 256 ∷ v / 256 % 256 ∷ v / 65536 % 256 ∷ v / 16777216 % 256 ∷ []
mem32 big v = v / 16777216 % 256 ∷ v / 65536 % 256 ∷ v / 256 % 256 ∷ v % 256 ∷ []

-- The value that an object of two, or of four, bytes holds.
abbrev pub val16 : Endian → List ℕ → ℕ
val16 little (a ∷ b ∷ []) = a + 256 * b
val16 big (a ∷ b ∷ []) = b + 256 * a
val16 e _ = 0

abbrev pub val32 : Endian → List ℕ → ℕ
val32 little (a ∷ b ∷ c ∷ d ∷ []) = a + 256 * b + 65536 * c + 16777216 * d
val32 big (a ∷ b ∷ c ∷ d ∷ []) = d + 256 * c + 65536 * b + 16777216 * a
val32 e _ = 0

-- The loop writes byte size - i - 1 of the argument to byte i of the result.
unfoldable pub liltobigs : Endian → ℕ → ℕ
liltobigs e v = val16 e (reverse (mem16 e v))

unfoldable pub liltobigl : Endian → ℕ → ℕ
liltobigl e v = val32 e (reverse (mem32 e v))

pub bigtolils : Endian → ℕ → ℕ
bigtolils = liltobigs

pub bigtolill : Endian → ℕ → ℕ
bigtolill = liltobigl

-- The store that the code makes under `#ifdef WORDS_BIGENDIAN`: swap, then store.
unfoldable pub store16 : Endian → ℕ → List ℕ
unfolding liltobigs
store16 little v = mem16 little v
store16 big v = mem16 big (liltobigs big v)

unfoldable pub store32 : Endian → ℕ → List ℕ
unfolding liltobigl
store32 little v = mem32 little v
store32 big v = mem32 big (liltobigl big v)

-- The load under `#ifdef WORDS_BIGENDIAN`: load, then swap.
unfoldable pub load16 : Endian → List ℕ → ℕ
unfolding liltobigs
load16 little b = val16 little b
load16 big b = liltobigs big (val16 big b)

unfoldable pub load32 : Endian → List ℕ → ℕ
unfolding liltobigl
load32 little b = val32 little b
load32 big b = liltobigl big (val32 big b)
