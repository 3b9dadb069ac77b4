-- ===== src/Items/Address/Columns.antt =====
-- An independent description of an address as the device sends it, column by column
-- (_zdtm_parse_address_item_params of src/zdtm_proto.c).
pub mod Stored
use lib_zdtm_sync.Prelude.{ℕ, ◌<◌, ◌≡◌, false, ◌==◌, some, List, [], ◌∷◌, length}
use lib_zdtm_sync.Bytes.{little, mem32}
use lib_zdtm_sync.Replies.Adi.Texts.{Text}
use lib_zdtm_sync.Items.Copy.{
  four, data_id_time, data_id_bit, data_id_barray, data_id_utf8, data_id_ulong,
}
use lib_zdtm_sync.Items.Columns.{Meaning}
use lib_zdtm_sync.Items.AddressFields.{
  AddressField, category, full_name, full_name_pronun, title, last_name, first_name, middle_name,
  suffix, alternative_name, last_name_pronun, first_name_pronun, company, company_pronun,
  department, job_title, work_phone, work_fax, work_mobile, work_state, work_city, work_street,
  work_zip, work_country, work_web_page, office, profession, assistant, manager, pager, cellular,
  home_phone, home_fax, home_state, home_city, home_street, home_zip, home_country, home_web_page,
  default_email, emails, spouse, gender, birthday, anniversary, nickname, children, memo, group,
}
use lib_zdtm_sync.Items.Address.{AddressItem, set_text}

-- A value and the field that it belongs to; `unread` is a column of a type that no field has.
pub data AddressColumn : Type 0 where
  creation_date modification_date : (date : List ℕ) → AddressColumn
  attribute : (value : ℕ) → AddressColumn
  sync_id : (value : ℕ) → AddressColumn
  text : (field : AddressField) (bytes : List ℕ) → AddressColumn
  unread : (type_id : ℕ) (abrev bytes : List ℕ) → AddressColumn

-- Dates have five bytes, and a sync id has 32 bits.
abbrev pub IsField : AddressColumn → Type 0
IsField (creation_date date) = length date ≡ 5
IsField (modification_date date) = length date ≡ 5
IsField (sync_id value) = value < 4294967296
IsField (unread type_id abrev bytes) =
    ((type_id == data_id_time) ≡ false)
    × ((type_id == data_id_bit) ≡ false)
    × ((type_id == data_id_barray) ≡ false)
    × ((type_id == data_id_utf8) ≡ false)
    × ((type_id == data_id_ulong) ≡ false)
IsField _ = Unit

-- The abbreviation under which the device has a text.
abbrev pub name_of : AddressField → List ℕ
name_of category = four b'C' b'T' b'G' b'R'
name_of full_name = four b'F' b'U' b'L' b'L'
name_of full_name_pronun = four b'N' b'A' b'P' b'R'
name_of title = four b'T' b'I' b'T' b'L'
name_of last_name = four b'L' b'N' b'M' b'E'
name_of first_name = four b'F' b'N' b'M' b'E'
name_of middle_name = four b'M' b'N' b'M' b'E'
name_of suffix = four b'S' b'U' b'F' b'X'
name_of alternative_name = four b'F' b'L' b'A' b'S'
name_of last_name_pronun = four b'L' b'N' b'P' b'R'
name_of first_name_pronun = four b'F' b'N' b'P' b'R'
name_of company = four b'C' b'P' b'N' b'Y'
name_of company_pronun = four b'C' b'P' b'P' b'R'
name_of department = four b'S' b'C' b'T' b'N'
name_of job_title = four b'P' b'S' b'T' b'N'
name_of work_phone = four b'T' b'E' b'L' b'2'
name_of work_fax = four b'F' b'A' b'X' b'2'
name_of work_mobile = four b'C' b'P' b'S' b'2'
name_of work_state = four b'B' b'S' b'T' b'A'
name_of work_city = four b'B' b'C' b'T' b'Y'
name_of work_street = four b'B' b'S' b'T' b'R'
name_of work_zip = four b'B' b'Z' b'I' b'P'
name_of work_country = four b'B' b'C' b'T' b'R'
name_of work_web_page = four b'B' b'W' b'E' b'B'
name_of office = four b'O' b'F' b'C' b'E'
name_of profession = four b'P' b'R' b'F' b'S'
name_of assistant = four b'A' b'S' b'S' b'T'
name_of manager = four b'M' b'N' b'G' b'R'
name_of pager = four b'B' b'P' b'G' b'R'
name_of cellular = four b'C' b'P' b'S' b'1'
name_of home_phone = four b'T' b'E' b'L' b'1'
name_of home_fax = four b'F' b'A' b'X' b'1'
name_of home_state = four b'H' b'S' b'T' b'A'
name_of home_city = four b'H' b'C' b'T' b'Y'
name_of home_street = four b'H' b'S' b'T' b'R'
name_of home_zip = four b'H' b'Z' b'I' b'P'
name_of home_country = four b'H' b'C' b'T' b'R'
name_of home_web_page = four b'H' b'W' b'E' b'B'
name_of default_email = four b'D' b'M' b'A' b'L'
name_of emails = four b'M' b'A' b'L' b'1'
name_of spouse = four b'S' b'P' b'U' b'S'
name_of gender = four b'G' b'N' b'D' b'R'
name_of birthday = four b'B' b'R' b'T' b'H'
name_of anniversary = four b'A' b'N' b'I' b'V'
name_of nickname = four b'N' b'C' b'N' b'M'
name_of children = four b'C' b'L' b'D' b'R'
name_of memo = four b'M' b'E' b'M' b'1'
name_of group = four b'G' b'R' b'P' b'S'

-- The category is an array of bytes, and the other texts are UTF-8.
abbrev pub text_type : AddressField → ℕ
text_type category = data_id_barray
text_type _ = data_id_utf8

-- The abbreviation and the data type under which the device has a field.
abbrev pub abrev_of : AddressColumn → List ℕ
abrev_of (creation_date date) = four b'C' b'T' b'T' b'M'
abrev_of (modification_date date) = four b'M' b'D' b'T' b'M'
abrev_of (attribute value) = four b'A' b'T' b'T' b'R'
abrev_of (sync_id value) = four b'S' b'Y' b'I' b'D'
abrev_of (text field bytes) = name_of field
abrev_of (unread type_id abrev bytes) = abrev

abbrev pub type_of : AddressColumn → ℕ
type_of (attribute value) = data_id_bit
type_of (sync_id value) = data_id_ulong
type_of (text field bytes) = text_type field
type_of (unread type_id abrev bytes) = type_id
type_of _ = data_id_time

-- The bytes of its value.
abbrev pub bytes_of : AddressColumn → List ℕ
bytes_of (creation_date date) = date
bytes_of (modification_date date) = date
bytes_of (attribute value) = value ∷ []
bytes_of (sync_id value) = mem32 little value
bytes_of (text field bytes) = bytes
bytes_of (unread type_id abrev bytes) = bytes

-- The item with the value in its field.
abbrev pub store : AddressColumn → AddressItem → AddressItem
store (creation_date date) item = record item { creation_date = date }
store (modification_date date) item = record item { modification_date = date }
store (attribute value) item = record item { attribute = value }
store (sync_id value) item = record item { sync_id = value }
store (text field bytes) item =
    set_text field (record { len = length bytes; bytes = some bytes }) item
store (unread type_id abrev bytes) item = item

-- The size of the block that a text takes.
abbrev pub rooms : AddressColumn → List ℕ
rooms (text field bytes) = length bytes ∷ []
rooms _ = []

-- A column: the field, and the description that the format has of it.
pub record Column : Type 0 where
  pub field : AddressColumn
  pub desc : List ℕ

abbrev pub text_of : Column → Text
text_of c = record { abrev = abrev_of c.field; type_id = type_of c.field; desc = c.desc }

abbrev pub meaning : Meaning Column AddressItem
meaning = record {
  text_of = text_of;
  bytes_of = λ c. bytes_of c.field;
  store = λ c. store c.field;
  rooms = λ c. rooms c.field;
}

-- The dates of the struct have their five bytes.
abbrev pub HasDates : AddressItem → Type 0
HasDates item = (length item.creation_date ≡ 5) × (length item.modification_date ≡ 5)
