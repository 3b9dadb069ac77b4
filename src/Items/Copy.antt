-- ===== src/Items/Copy.antt =====
-- How the parameters of an item reach its struct: `memcpy` of param_len bytes into a field. A field
-- that is smaller is overrun, which is undefined behaviour.
use lib_zdtm_sync.Prelude.{
  ℕ, zero, suc, Option, none, some, List, [], ◌∷◌, same_bytes, Bool, true, false,
}
use lib_zdtm_sync.Prelude.Int.{ℤ, pos, negsuc, nonzero}
use lib_zdtm_sync.Bytes.{Endian, mem16, mem32, val16, val32}
use lib_zdtm_sync.Run.{M, pure, undefined, defined, ◌>>=◌, overlay}
use lib_zdtm_sync.Env.{State, FormatParam}
use lib_zdtm_sync.Platform.{Platform, allocate}
use lib_zdtm_sync.Contents.{DataParam}
use lib_zdtm_sync.Requests.{pointee, read}

abbrev pub four : ℕ → ℕ → ℕ → ℕ → List ℕ
four a b c d = a ∷ b ∷ c ∷ d ∷ []

-- DATA_ID_TIME and the other data types (src/zdtm_common.h)
abbrev pub data_id_time : ℕ
data_id_time = 0x04

abbrev pub data_id_bit : ℕ
data_id_bit = 0x06

abbrev pub data_id_word : ℕ
data_id_word = 0x08

abbrev pub data_id_uchar : ℕ
data_id_uchar = 0x0b

abbrev pub data_id_barray : ℕ
data_id_barray = 0x0c

abbrev pub data_id_utf8 : ℕ
data_id_utf8 = 0x11

abbrev pub data_id_ulong : ℕ
data_id_ulong = 0x12

-- `memcmp(format.abrev, name, 4) == 0`
abbrev pub named : FormatParam → List ℕ → Bool
named format name = same_bytes format.abrev name

-- The bytes of a parameter.
abbrev pub data_of : DataParam → Option (List ℕ)
data_of param = read param.param_len (pointee param.param_data)

abbrev pub single : List ℕ → Option ℕ
single (x ∷ []) = some x
single _ = none

module _ {W : Type 0} where
  -- Into an array.
  abbrev pub copy_array : DataParam → List ℕ → M (State W) (List ℕ)
  copy_array param field = do bytes ← defined (data_of param); defined (overlay bytes field)

  -- Into a char, a uint16_t and a uint32_t.
  abbrev pub copy_char : DataParam → ℕ → M (State W) ℕ
  copy_char param field = do bytes ← copy_array param (field ∷ []); defined (single bytes)

  abbrev pub copy_u16 : Endian → DataParam → ℕ → M (State W) ℕ
  copy_u16 e param field = do bytes ← copy_array param (mem16 e field); pure (val16 e bytes)

  abbrev pub copy_u32 : Endian → DataParam → ℕ → M (State W) ℕ
  copy_u32 e param field = do bytes ← copy_array param (mem32 e field); pure (val32 e bytes)

module _ {W : Type 0} (p : Platform W) where
  -- Into a new block of the parameter's length; NULL if there is none.
  abbrev pub copy_text : DataParam → M (State W) (Option (List ℕ))
  copy_text param = do
    block ← allocate p param.param_len
    elim block [ none ↦ pure none | some _ ↦ do bytes ← defined (data_of param); pure (some bytes) ]

module _ {W : Type 0} {Item : Type 0} where
  -- The code of a failed malloc.
  abbrev pub stored_or : ℕ → Option (List ℕ) → Item → M (State W) (ℤ × Item)
  stored_or n none item = pure (negsuc n, item)
  stored_or n (some _) item = pure (pos 0, item)

  -- The loop over the parameter format, which stops at the first failed malloc.
  unfoldable pub each_param :
      (FormatParam → DataParam → Item → M (State W) (ℤ × Item))
      → ℕ
      → List FormatParam
      → List DataParam
      → Item
      → M (State W) (ℤ × Item)
  each_param step zero formats params item = pure (pos 0, item)
  each_param step (suc n) [] params item = undefined
  each_param step (suc n) (f ∷ fs) [] item = undefined
  each_param step (suc n) (f ∷ fs) (x ∷ xs) item = do
    (r, item) ← step f x item
    elim (nonzero r) [ true ↦ pure (r, item) | false ↦ each_param step n fs xs item ]

-- The elements that a pointer to an array leads to.
abbrev pub array : {A : Type 0} → Option (List A) → List A
array none = []
array (some xs) = xs
