-- ===== src/Items/Calendar.antt =====
-- _zdtm_parse_calendar_item_params: the parameters of a calendar item (src/zdtm_proto.c).
pub mod Columns
use lib_zdtm_sync.Prelude.{ℕ, Option, List, if◌then◌else◌, not, ◌==◌}
use lib_zdtm_sync.Prelude.Int.{ℤ, pos, negsuc}
use lib_zdtm_sync.Run.{M, pure, ◌>>=◌}
use lib_zdtm_sync.Env.{State, FormatParam}
use lib_zdtm_sync.Platform.{Platform}
use lib_zdtm_sync.Contents.{DataParam}
use lib_zdtm_sync.Items.Copy.{
  four, named, array, data_id_time, data_id_bit, data_id_word, data_id_uchar, data_id_barray,
  data_id_utf8, data_id_ulong, copy_array, copy_char, copy_u16, copy_u32, copy_text, stored_or,
  each_param,
}

-- struct zdtm_calendar_item (src/zdtm_common.h)
pub record CalendarItem : Type 0 where
  pub attribute : ℕ
  pub creation_date : List ℕ
  pub modification_date : List ℕ
  pub sync_id : ℕ
  pub category_len : ℕ
  pub category : Option (List ℕ)
  pub description_len : ℕ
  pub description : Option (List ℕ)
  pub location_len : ℕ
  pub location : Option (List ℕ)
  pub notes_len : ℕ
  pub notes : Option (List ℕ)
  pub start_time : List ℕ
  pub end_time : List ℕ
  pub schedule_type : ℕ
  pub alarm : ℕ
  pub alarm_setting : ℕ
  pub alarm_time : ℕ
  pub repeat_type : ℕ
  pub repeat_period : ℕ
  pub repeat_position : ℕ
  pub repeat_date : ℕ
  pub repeat_end_date_setting : ℕ
  pub repeat_end_date : List ℕ
  pub all_day_start_date : List ℕ
  pub all_day_end_date : List ℕ
  pub multiple_days_flag : ℕ

module _ {W : Type 0} (p : Platform W) where
  -- DATA_ID_TIME
  abbrev pub set_calendar_time :
      FormatParam → DataParam → CalendarItem → M (State W) (ℤ × CalendarItem)
  set_calendar_time format param item =
      if named format (four b'C' b'T' b'T' b'M')
      then (do
        field ← copy_array param item.creation_date
        pure (pos 0, record item { creation_date = field }))
      else if named format (four b'M' b'D' b'T' b'M')
      then (do
        field ← copy_array param item.modification_date
        pure (pos 0, record item { modification_date = field }))
      else if named format (four b'T' b'I' b'M' b'1')
      then (do
        field ← copy_array param item.start_time
        pure (pos 0, record item { start_time = field }))
      else if named format (four b'T' b'I' b'M' b'2')
      then (do
        field ← copy_array param item.end_time
        pure (pos 0, record item { end_time = field }))
      else if named format (four b'R' b'E' b'D' b'T')
      then (do
        field ← copy_array param item.repeat_end_date
        pure (pos 0, record item { repeat_end_date = field }))
      else if named format (four b'A' b'L' b'S' b'D')
      then (do
        field ← copy_array param item.all_day_start_date
        pure (pos 0, record item { all_day_start_date = field }))
      else if named format (four b'A' b'L' b'E' b'D')
      then (do
        field ← copy_array param item.all_day_end_date
        pure (pos 0, record item { all_day_end_date = field }))
      else pure (pos 0, item)

  -- DATA_ID_BIT
  abbrev pub set_calendar_bit :
      FormatParam → DataParam → CalendarItem → M (State W) (ℤ × CalendarItem)
  set_calendar_bit format param item =
      if named format (four b'A' b'T' b'T' b'R')
      then (do
        field ← copy_char param item.attribute
        pure (pos 0, record item { attribute = field }))
      else pure (pos 0, item)

  -- DATA_ID_UCHAR
  abbrev pub set_calendar_uchar :
      FormatParam → DataParam → CalendarItem → M (State W) (ℤ × CalendarItem)
  set_calendar_uchar format param item =
      if named format (four b'A' b'D' b'A' b'Y')
      then (do
        field ← copy_char param item.schedule_type
        pure (pos 0, record item { schedule_type = field }))
      else if named format (four b'A' b'R' b'O' b'N')
      then (do field ← copy_char param item.alarm; pure (pos 0, record item { alarm = field }))
      else if named format (four b'A' b'R' b'S' b'D')
      then (do
        field ← copy_char param item.alarm_setting
        pure (pos 0, record item { alarm_setting = field }))
      else if named format (four b'R' b'T' b'Y' b'P')
      then (do
        field ← copy_char param item.repeat_type
        pure (pos 0, record item { repeat_type = field }))
      else if named format (four b'R' b'D' b'Y' b'S')
      then (do
        field ← copy_char param item.repeat_date
        pure (pos 0, record item { repeat_date = field }))
      else if named format (four b'R' b'E' b'N' b'D')
      then (do
        field ← copy_char param item.repeat_end_date_setting
        pure (pos 0, record item { repeat_end_date_setting = field }))
      else if named format (four b'M' b'D' b'A' b'Y')
      then (do
        field ← copy_char param item.multiple_days_flag
        pure (pos 0, record item { multiple_days_flag = field }))
      else pure (pos 0, item)

  -- DATA_ID_WORD
  abbrev pub set_calendar_word :
      FormatParam → DataParam → CalendarItem → M (State W) (ℤ × CalendarItem)
  set_calendar_word format param item =
      if named format (four b'A' b'R' b'M' b'N')
      then (do
        field ← copy_u16 p.order param item.alarm_time
        pure (pos 0, record item { alarm_time = field }))
      else if named format (four b'R' b'F' b'R' b'Q')
      then (do
        field ← copy_u16 p.order param item.repeat_period
        pure (pos 0, record item { repeat_period = field }))
      else if named format (four b'R' b'P' b'O' b'S')
      then (do
        field ← copy_u16 p.order param item.repeat_position
        pure (pos 0, record item { repeat_position = field }))
      else pure (pos 0, item)

  -- DATA_ID_BARRAY
  abbrev pub set_calendar_barray :
      FormatParam → DataParam → CalendarItem → M (State W) (ℤ × CalendarItem)
  set_calendar_barray format param item =
      if named format (four b'C' b'T' b'G' b'R')
      then (do
        text ← copy_text p param
        stored_or 1 text (record item { category_len = param.param_len; category = text }))
      else pure (pos 0, item)

  -- DATA_ID_UTF8
  abbrev pub set_calendar_utf8 :
      FormatParam → DataParam → CalendarItem → M (State W) (ℤ × CalendarItem)
  set_calendar_utf8 format param item =
      if named format (four b'D' b'S' b'R' b'P')
      then (do
        text ← copy_text p param
        stored_or 2 text (record item { description_len = param.param_len; description = text }))
      else if named format (four b'P' b'L' b'C' b'E')
      then (do
        text ← copy_text p param
        stored_or 3 text (record item { location_len = param.param_len; location = text }))
      else if named format (four b'M' b'E' b'M' b'1')
      then (do
        text ← copy_text p param
        stored_or 4 text (record item { notes_len = param.param_len; notes = text }))
      else pure (pos 0, item)

  -- DATA_ID_ULONG
  abbrev pub set_calendar_ulong :
      FormatParam → DataParam → CalendarItem → M (State W) (ℤ × CalendarItem)
  set_calendar_ulong format param item =
      if named format (four b'S' b'Y' b'I' b'D')
      then (do
        field ← copy_u32 p.order param item.sync_id
        pure (pos 0, record item { sync_id = field }))
      else pure (pos 0, item)

  -- The switch over the data type of a parameter.
  unfoldable pub set_calendar :
      FormatParam → DataParam → CalendarItem → M (State W) (ℤ × CalendarItem)
  set_calendar format param item =
      if format.type_id == data_id_time
      then set_calendar_time format param item
      else if format.type_id == data_id_bit
      then set_calendar_bit format param item
      else if format.type_id == data_id_uchar
      then set_calendar_uchar format param item
      else if format.type_id == data_id_word
      then set_calendar_word format param item
      else if format.type_id == data_id_barray
      then set_calendar_barray format param item
      else if format.type_id == data_id_utf8
      then set_calendar_utf8 format param item
      else if format.type_id == data_id_ulong
      then set_calendar_ulong format param item
      else pure (pos 0, item)

  -- The counts of the two arrays must agree. The loop runs over the format.
  unfoldable pub parse_calendar_item_params :
      Option (List FormatParam)
      → ℕ
      → Option (List DataParam)
      → ℕ
      → CalendarItem
      → M (State W) (ℤ × CalendarItem)
  unfolding set_calendar
  parse_calendar_item_params formats num_format_params params num_params item =
      if not (num_format_params == num_params)
      then pure (negsuc 0, item)
      else each_param set_calendar num_format_params (array formats) (array params) item
