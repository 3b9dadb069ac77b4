-- ===== src/Items/Todo/Columns.antt =====
-- An independent description of a todo item as the device sends it, column by column
-- (_zdtm_parse_todo_item_params of src/zdtm_sync.c).
pub mod Stored
use lib_zdtm_sync.Prelude.{
  ℕ, ◌<◌, ◌≡◌, refl, ap, ◌∙◌, false, ◌==◌, Option, none, some, List, [], ◌∷◌, length, arith,
}
use lib_zdtm_sync.Prelude.Int.{pos}
use lib_zdtm_sync.Bytes.{Endian, little, big, mem32}
use lib_zdtm_sync.Run.{ok, ◌>>=◌, overlay_full}
use lib_zdtm_sync.Env.{State, FormatParam}
use lib_zdtm_sync.Platform.{Platform, NeverFull}
use lib_zdtm_sync.Platform.Blocks.{after_mallocs, malloc-some}
use lib_zdtm_sync.Contents.{DataParam, TodoItem}
use lib_zdtm_sync.Requests.{read}
use lib_zdtm_sync.Requests.Length.{read_all}
use lib_zdtm_sync.Replies.Adi.Texts
use lib_zdtm_sync.Replies.Adi.Texts.{Text}
use lib_zdtm_sync.Replies.Adr.Params
use lib_zdtm_sync.Items.Copy.{
  four, data_id_time, data_id_bit, data_id_uchar, data_id_barray, data_id_utf8, data_id_ulong,
  copy_u32,
}
use lib_zdtm_sync.Items.Columns.{Meaning, Stores}
use lib_zdtm_sync.Items.Columns.Numbers.{copy_u32-little}
use lib_zdtm_sync.Items.Todo.{set_todo}

-- A value and the field that it belongs to; `unread` is a column of a type that no field has.
pub data TodoField : Type 0 where
  creation_date modification_date start_date due_date completed_date : (date : List ℕ) → TodoField
  attribute progress priority : (value : ℕ) → TodoField
  category description notes : (text : List ℕ) → TodoField
  sync_id : (value : ℕ) → TodoField
  unread : (type_id : ℕ) (abrev bytes : List ℕ) → TodoField

-- Dates have five bytes, and a sync id has 32 bits.
abbrev pub IsField : TodoField → Type 0
IsField (creation_date date) = length date ≡ 5
IsField (modification_date date) = length date ≡ 5
IsField (start_date date) = length date ≡ 5
IsField (due_date date) = length date ≡ 5
IsField (completed_date date) = length date ≡ 5
IsField (sync_id value) = value < 4294967296
IsField (unread type_id abrev bytes) =
    ((type_id == data_id_time) ≡ false)
    × ((type_id == data_id_bit) ≡ false)
    × ((type_id == data_id_uchar) ≡ false)
    × ((type_id == data_id_barray) ≡ false)
    × ((type_id == data_id_utf8) ≡ false)
    × ((type_id == data_id_ulong) ≡ false)
IsField _ = Unit

-- The abbreviation and the data type under which the device has a field.
abbrev pub abrev_of : TodoField → List ℕ
abrev_of (creation_date date) = four b'C' b'T' b'T' b'M'
abrev_of (modification_date date) = four b'M' b'D' b'T' b'M'
abrev_of (start_date date) = four b'E' b'T' b'D' b'Y'
abrev_of (due_date date) = four b'L' b'T' b'D' b'Y'
abrev_of (completed_date date) = four b'F' b'N' b'D' b'Y'
abrev_of (attribute value) = four b'A' b'T' b'T' b'R'
abrev_of (progress value) = four b'M' b'A' b'R' b'K'
abrev_of (priority value) = four b'P' b'R' b'T' b'Y'
abrev_of (category text) = four b'C' b'T' b'G' b'R'
abrev_of (description text) = four b'T' b'I' b'T' b'L'
abrev_of (notes text) = four b'M' b'E' b'M' b'1'
abrev_of (sync_id value) = four b'S' b'Y' b'I' b'D'
abrev_of (unread type_id abrev bytes) = abrev

abbrev pub type_of : TodoField → ℕ
type_of (attribute value) = data_id_bit
type_of (progress value) = data_id_uchar
type_of (priority value) = data_id_uchar
type_of (category text) = data_id_barray
type_of (description text) = data_id_utf8
type_of (notes text) = data_id_utf8
type_of (sync_id value) = data_id_ulong
type_of (unread type_id abrev bytes) = type_id
type_of _ = data_id_time

-- The bytes of its value.
abbrev pub bytes_of : TodoField → List ℕ
bytes_of (creation_date date) = date
bytes_of (modification_date date) = date
bytes_of (start_date date) = date
bytes_of (due_date date) = date
bytes_of (completed_date date) = date
bytes_of (attribute value) = value ∷ []
bytes_of (progress value) = value ∷ []
bytes_of (priority value) = value ∷ []
bytes_of (category text) = text
bytes_of (description text) = text
bytes_of (notes text) = text
bytes_of (sync_id value) = mem32 little value
bytes_of (unread type_id abrev bytes) = bytes

-- The item with the value in its field.
abbrev pub store : TodoField → TodoItem → TodoItem
store (creation_date date) item = record item { creation_date = date }
store (modification_date date) item = record item { modification_date = date }
store (start_date date) item = record item { start_date = date }
store (due_date date) item = record item { due_date = date }
store (completed_date date) item = record item { completed_date = date }
store (attribute value) item = record item { attribute = value }
store (progress value) item = record item { progress = value }
store (priority value) item = record item { priority = value }
store (category text) item = record item { category_len = length text; category = some text }
store (description text) item = record item {
  description_len = length text;
  description = some text;
}
store (notes text) item = record item { notes_len = length text; notes = some text }
store (sync_id value) item = record item { sync_id = value }
store (unread type_id abrev bytes) item = item

-- The size of the block that a text takes.
abbrev pub rooms : TodoField → List ℕ
rooms (category text) = length text ∷ []
rooms (description text) = length text ∷ []
rooms (notes text) = length text ∷ []
rooms _ = []

-- A column: the field, and the description that the format has of it.
pub record Column : Type 0 where
  pub field : TodoField
  pub desc : List ℕ

abbrev pub text_of : Column → Text
text_of c = record { abrev = abrev_of c.field; type_id = type_of c.field; desc = c.desc }

abbrev pub meaning : Meaning Column TodoItem
meaning = record {
  text_of = text_of;
  bytes_of = λ c. bytes_of c.field;
  store = λ c. store c.field;
  rooms = λ c. rooms c.field;
}

-- The dates of the struct have their five bytes.
abbrev pub HasDates : TodoItem → Type 0
HasDates item =
    (length item.creation_date ≡ 5)
    × (length item.modification_date ≡ 5)
    × (length item.start_date ≡ 5)
    × (length item.due_date ≡ 5)
    × (length item.completed_date ≡ 5)
