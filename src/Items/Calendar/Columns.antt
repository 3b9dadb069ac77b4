-- ===== src/Items/Calendar/Columns.antt =====
-- An independent description of a calendar item as the device sends it, column by column
-- (_zdtm_parse_calendar_item_params of src/zdtm_sync.c).
pub mod Stored
use lib_zdtm_sync.Prelude.{
  ℕ, ◌<◌, ◌≡◌, refl, ap, ◌∙◌, false, ◌==◌, Option, none, some, List, [], ◌∷◌, length, arith,
}
use lib_zdtm_sync.Prelude.Int.{pos}
use lib_zdtm_sync.Bytes.{Endian, little, big, mem16, mem32}
use lib_zdtm_sync.Run.{ok, ◌>>=◌, overlay_full}
use lib_zdtm_sync.Env.{State, FormatParam}
use lib_zdtm_sync.Platform.{Platform, NeverFull}
use lib_zdtm_sync.Platform.Blocks.{after_mallocs, malloc-some}
use lib_zdtm_sync.Contents.{DataParam}
use lib_zdtm_sync.Requests.Length.{read_all}
use lib_zdtm_sync.Replies.Adi.Texts
use lib_zdtm_sync.Replies.Adi.Texts.{Text}
use lib_zdtm_sync.Replies.Adr.Params
use lib_zdtm_sync.Items.Copy.{
  four, data_id_time, data_id_bit, data_id_uchar, data_id_word, data_id_barray, data_id_utf8,
  data_id_ulong,
}
use lib_zdtm_sync.Items.Columns.{Meaning, Stores}
use lib_zdtm_sync.Items.Columns.Numbers.{copy_u16-little, copy_u32-little}
use lib_zdtm_sync.Items.Calendar.{CalendarItem, set_calendar}

-- A value and the field that it belongs to; `unread` is a column of a type that no field has.
pub data CalendarField : Type 0 where
  creation_date modification_date start_time end_time repeat_end_date all_day_start_date
        all_day_end_date :
      (date : List ℕ) → CalendarField
  attribute schedule_type alarm alarm_setting repeat_type repeat_date repeat_end_date_setting
        multiple_days_flag :
      (value : ℕ) → CalendarField
  alarm_time repeat_period repeat_position : (value : ℕ) → CalendarField
  category description location notes : (text : List ℕ) → CalendarField
  sync_id : (value : ℕ) → CalendarField
  unread : (type_id : ℕ) (abrev bytes : List ℕ) → CalendarField

-- Dates have five bytes, and the numbers have the width of their fields.
abbrev pub IsField : CalendarField → Type 0
IsField (creation_date date) = length date ≡ 5
IsField (modification_date date) = length date ≡ 5
IsField (start_time date) = length date ≡ 5
IsField (end_time date) = length date ≡ 5
IsField (repeat_end_date date) = length date ≡ 5
IsField (all_day_start_date date) = length date ≡ 5
IsField (all_day_end_date date) = length date ≡ 5
IsField (alarm_time value) = value < 65536
IsField (repeat_period value) = value < 65536
IsField (repeat_position value) = value < 65536
IsField (sync_id value) = value < 4294967296
IsField (unread type_id abrev bytes) =
    ((type_id == data_id_time) ≡ false)
    × ((type_id == data_id_bit) ≡ false)
    × ((type_id == data_id_uchar) ≡ false)
    × ((type_id == data_id_word) ≡ false)
    × ((type_id == data_id_barray) ≡ false)
    × ((type_id == data_id_utf8) ≡ false)
    × ((type_id == data_id_ulong) ≡ false)
IsField _ = Unit

-- The abbreviation and the data type under which the device has a field.
abbrev pub abrev_of : CalendarField → List ℕ
abrev_of (creation_date date) = four b'C' b'T' b'T' b'M'
abrev_of (modification_date date) = four b'M' b'D' b'T' b'M'
abrev_of (start_time date) = four b'T' b'I' b'M' b'1'
abrev_of (end_time date) = four b'T' b'I' b'M' b'2'
abrev_of (repeat_end_date date) = four b'R' b'E' b'D' b'T'
abrev_of (all_day_start_date date) = four b'A' b'L' b'S' b'D'
abrev_of (all_day_end_date date) = four b'A' b'L' b'E' b'D'
abrev_of (attribute value) = four b'A' b'T' b'T' b'R'
abrev_of (schedule_type value) = four b'A' b'D' b'A' b'Y'
abrev_of (alarm value) = four b'A' b'R' b'O' b'N'
abrev_of (alarm_setting value) = four b'A' b'R' b'S' b'D'
abrev_of (repeat_type value) = four b'R' b'T' b'Y' b'P'
abrev_of (repeat_date value) = four b'R' b'D' b'Y' b'S'
abrev_of (repeat_end_date_setting value) = four b'R' b'E' b'N' b'D'
abrev_of (multiple_days_flag value) = four b'M' b'D' b'A' b'Y'
abrev_of (alarm_time value) = four b'A' b'R' b'M' b'N'
abrev_of (repeat_period value) = four b'R' b'F' b'R' b'Q'
abrev_of (repeat_position value) = four b'R' b'P' b'O' b'S'
abrev_of (category text) = four b'C' b'T' b'G' b'R'
abrev_of (description text) = four b'D' b'S' b'R' b'P'
abrev_of (location text) = four b'P' b'L' b'C' b'E'
abrev_of (notes text) = four b'M' b'E' b'M' b'1'
abrev_of (sync_id value) = four b'S' b'Y' b'I' b'D'
abrev_of (unread type_id abrev bytes) = abrev

abbrev pub type_of : CalendarField → ℕ
type_of (attribute value) = data_id_bit
type_of (schedule_type value) = data_id_uchar
type_of (alarm value) = data_id_uchar
type_of (alarm_setting value) = data_id_uchar
type_of (repeat_type value) = data_id_uchar
type_of (repeat_date value) = data_id_uchar
type_of (repeat_end_date_setting value) = data_id_uchar
type_of (multiple_days_flag value) = data_id_uchar
type_of (alarm_time value) = data_id_word
type_of (repeat_period value) = data_id_word
type_of (repeat_position value) = data_id_word
type_of (category text) = data_id_barray
type_of (description text) = data_id_utf8
type_of (location text) = data_id_utf8
type_of (notes text) = data_id_utf8
type_of (sync_id value) = data_id_ulong
type_of (unread type_id abrev bytes) = type_id
type_of _ = data_id_time

-- The bytes of its value.
abbrev pub bytes_of : CalendarField → List ℕ
bytes_of (creation_date date) = date
bytes_of (modification_date date) = date
bytes_of (start_time date) = date
bytes_of (end_time date) = date
bytes_of (repeat_end_date date) = date
bytes_of (all_day_start_date date) = date
bytes_of (all_day_end_date date) = date
bytes_of (attribute value) = value ∷ []
bytes_of (schedule_type value) = value ∷ []
bytes_of (alarm value) = value ∷ []
bytes_of (alarm_setting value) = value ∷ []
bytes_of (repeat_type value) = value ∷ []
bytes_of (repeat_date value) = value ∷ []
bytes_of (repeat_end_date_setting value) = value ∷ []
bytes_of (multiple_days_flag value) = value ∷ []
bytes_of (alarm_time value) = mem16 little value
bytes_of (repeat_period value) = mem16 little value
bytes_of (repeat_position value) = mem16 little value
bytes_of (category text) = text
bytes_of (description text) = text
bytes_of (location text) = text
bytes_of (notes text) = text
bytes_of (sync_id value) = mem32 little value
bytes_of (unread type_id abrev bytes) = bytes

-- The item with the value in its field.
abbrev pub store : CalendarField → CalendarItem → CalendarItem
store (creation_date date) item = record item { creation_date = date }
store (modification_date date) item = record item { modification_date = date }
store (start_time date) item = record item { start_time = date }
store (end_time date) item = record item { end_time = date }
store (repeat_end_date date) item = record item { repeat_end_date = date }
store (all_day_start_date date) item = record item { all_day_start_date = date }
store (all_day_end_date date) item = record item { all_day_end_date = date }
store (attribute value) item = record item { attribute = value }
store (schedule_type value) item = record item { schedule_type = value }
store (alarm value) item = record item { alarm = value }
store (alarm_setting value) item = record item { alarm_setting = value }
store (repeat_type value) item = record item { repeat_type = value }
store (repeat_date value) item = record item { repeat_date = value }
store (repeat_end_date_setting value) item = record item { repeat_end_date_setting = value }
store (multiple_days_flag value) item = record item { multiple_days_flag = value }
store (alarm_time value) item = record item { alarm_time = value }
store (repeat_period value) item = record item { repeat_period = value }
store (repeat_position value) item = record item { repeat_position = value }
store (category text) item = record item { category_len = length text; category = some text }
store (description text) item = record item {
  description_len = length text;
  description = some text;
}
store (location text) item = record item { location_len = length text; location = some text }
store (notes text) item = record item { notes_len = length text; notes = some text }
store (sync_id value) item = record item { sync_id = value }
store (unread type_id abrev bytes) item = item

-- The size of the block that a text takes.
abbrev pub rooms : CalendarField → List ℕ
rooms (category text) = length text ∷ []
rooms (description text) = length text ∷ []
rooms (location text) = length text ∷ []
rooms (notes text) = length text ∷ []
rooms _ = []

-- A column: the field, and the description that the format has of it.
pub record Column : Type 0 where
  pub field : CalendarField
  pub desc : List ℕ

abbrev pub text_of : Column → Text
text_of c = record { abrev = abrev_of c.field; type_id = type_of c.field; desc = c.desc }

abbrev pub meaning : Meaning Column CalendarItem
meaning = record {
  text_of = text_of;
  bytes_of = λ c. bytes_of c.field;
  store = λ c. store c.field;
  rooms = λ c. rooms c.field;
}

-- The dates of the struct have their five bytes.
abbrev pub HasDates : CalendarItem → Type 0
HasDates item =
    (length item.creation_date ≡ 5)
    × (length item.modification_date ≡ 5)
    × (length item.start_time ≡ 5)
    × (length item.end_time ≡ 5)
    × (length item.repeat_end_date ≡ 5)
    × (length item.all_day_start_date ≡ 5)
    × (length item.all_day_end_date ≡ 5)
