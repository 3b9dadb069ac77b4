-- ===== src/Items/Address.antt =====
-- _zdtm_parse_address_item_params: the parameters of an address (src/zdtm_proto.c).
-- The struct of an address holds 48 texts, each a length and a pointer; they are a function of the
-- field.
pub mod Columns
use lib_zdtm_sync.Prelude.{ℕ, Option, List, [], ◌∷◌, if◌then◌else◌, not, ◌==◌}
use lib_zdtm_sync.Prelude.Int.{ℤ, pos, negsuc}
use lib_zdtm_sync.Run.{M, pure, ◌>>=◌}
use lib_zdtm_sync.Env.{State, FormatParam}
use lib_zdtm_sync.Platform.{Platform}
use lib_zdtm_sync.Contents.{DataParam}
use lib_zdtm_sync.Items.Copy.{
  four, named, array, data_id_time, data_id_bit, data_id_barray, data_id_utf8, data_id_ulong,
  copy_array, copy_char, copy_u32, copy_text, stored_or, each_param,
}
use lib_zdtm_sync.Items.AddressFields.{AddressField, category, place, Entry, text_entries}

pub record TextField : Type 0 where
  pub len : ℕ
  pub bytes : Option (List ℕ)

-- struct zdtm_address_item (src/zdtm_common.h)
pub record AddressItem : Type 0 where
  pub attribute : ℕ
  pub creation_date : List ℕ
  pub modification_date : List ℕ
  pub sync_id : ℕ
  pub texts : AddressField → TextField

-- An assignment to the length and the pointer of one field.
unfoldable pub set_text : AddressField → TextField → AddressItem → AddressItem
unfolding place
set_text f t item = record item { texts = λ g. if place f == place g then t else item.texts g }

module _ {W : Type 0} (p : Platform W) where
  abbrev pub store_text : AddressField → ℕ → DataParam → AddressItem → M (State W) (ℤ × AddressItem)
  store_text f n param item = do
    text ← copy_text p param
    stored_or n text (set_text f (record { len = param.param_len; bytes = text }) item)

  -- The chain of comparisons under DATA_ID_UTF8.
  unfoldable pub set_address_utf8 :
      List Entry → FormatParam → DataParam → AddressItem → M (State W) (ℤ × AddressItem)
  set_address_utf8 [] format param item = pure (pos 0, item)
  set_address_utf8 (e ∷ es) format param item =
      let rest = set_address_utf8 es format param item in
      if named format e.abrev then store_text e.field e.code param item else rest

  -- DATA_ID_TIME
  abbrev pub set_address_time :
      FormatParam → DataParam → AddressItem → M (State W) (ℤ × AddressItem)
  set_address_time format param item =
      if named format (four b'C' b'T' b'T' b'M')
      then (do
        field ← copy_array param item.creation_date
        pure (pos 0, record item { creation_date = field }))
      else if named format (four b'M' b'D' b'T' b'M')
      then (do
        field ← copy_array param item.modification_date
        pure (pos 0, record item { modification_date = field }))
      else pure (pos 0, item)

  -- DATA_ID_BIT
  abbrev pub set_address_bit : FormatParam → DataParam → AddressItem → M (State W) (ℤ × AddressItem)
  set_address_bit format param item =
      if named format (four b'A' b'T' b'T' b'R')
      then (do
        field ← copy_char param item.attribute
        pure (pos 0, record item { attribute = field }))
      else pure (pos 0, item)

  -- DATA_ID_BARRAY
  abbrev pub set_address_barray :
      FormatParam → DataParam → AddressItem → M (State W) (ℤ × AddressItem)
  set_address_barray format param item =
      if named format (four b'C' b'T' b'G' b'R')
      then store_text category 1 param item
      else pure (pos 0, item)

  -- DATA_ID_ULONG
  abbrev pub set_address_ulong :
      FormatParam → DataParam → AddressItem → M (State W) (ℤ × AddressItem)
  set_address_ulong format param item =
      if named format (four b'S' b'Y' b'I' b'D')
      then (do
        field ← copy_u32 p.order param item.sync_id
        pure (pos 0, record item { sync_id = field }))
      else pure (pos 0, item)

  -- The switch over the data type of a parameter.
  unfoldable pub set_address : FormatParam → DataParam → AddressItem → M (State W) (ℤ × AddressItem)
  set_address format param item =
      if format.type_id == data_id_time
      then set_address_time format param item
      else if format.type_id == data_id_bit
      then set_address_bit format param item
      else if format.type_id == data_id_barray
      then set_address_barray format param item
      else if format.type_id == data_id_utf8
      then set_address_utf8 text_entries format param item
      else if format.type_id == data_id_ulong
      then set_address_ulong format param item
      else pure (pos 0, item)

  -- The counts of the two arrays must agree. The loop runs over the format.
  unfoldable pub parse_address_item_params :
      Option (List FormatParam)
      → ℕ
      → Option (List DataParam)
      → ℕ
      → AddressItem
      → M (State W) (ℤ × AddressItem)
  unfolding set_address
  parse_address_item_params formats num_format_params params num_params item =
      if not (num_format_params == num_params)
      then pure (negsuc 0, item)
      else each_param set_address num_format_params (array formats) (array params) item
