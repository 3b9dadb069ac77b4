-- ===== src/Items/Todo.antt =====
-- _zdtm_parse_todo_item_params: the parameters of a todo item (src/zdtm_proto.c).
pub mod Columns
use lib_zdtm_sync.Prelude.{ℕ, Option, List, if◌then◌else◌, not, ◌==◌}
use lib_zdtm_sync.Prelude.Int.{ℤ, pos, negsuc}
use lib_zdtm_sync.Run.{M, pure, ◌>>=◌}
use lib_zdtm_sync.Env.{State, FormatParam}
use lib_zdtm_sync.Platform.{Platform}
use lib_zdtm_sync.Contents.{DataParam, TodoItem}
use lib_zdtm_sync.Items.Copy.{
  four, named, array, data_id_time, data_id_bit, data_id_uchar, data_id_barray, data_id_utf8,
  data_id_ulong, copy_array, copy_char, copy_u32, copy_text, stored_or, each_param,
}

module _ {W : Type 0} (p : Platform W) where
  -- DATA_ID_TIME
  abbrev pub set_todo_time : FormatParam → DataParam → TodoItem → M (State W) (ℤ × TodoItem)
  set_todo_time format param item =
      if named format (four b'C' b'T' b'T' b'M')
      then (do
        field ← copy_array param item.creation_date
        pure (pos 0, record item { creation_date = field }))
      else if named format (four b'M' b'D' b'T' b'M')
      then (do
        field ← copy_array param item.modification_date
        pure (pos 0, record item { modification_date = field }))
      else if named format (four b'E' b'T' b'D' b'Y')
      then (do
        field ← copy_array param item.start_date
        pure (pos 0, record item { start_date = field }))
      else if named format (four b'L' b'T' b'D' b'Y')
      then (do
        field ← copy_array param item.due_date
        pure (pos 0, record item { due_date = field }))
      else if named format (four b'F' b'N' b'D' b'Y')
      then (do
        field ← copy_array param item.completed_date
        pure (pos 0, record item { completed_date = field }))
      else pure (pos 0, item)

  -- DATA_ID_BIT
  abbrev pub set_todo_bit : FormatParam → DataParam → TodoItem → M (State W) (ℤ × TodoItem)
  set_todo_bit format param item =
      if named format (four b'A' b'T' b'T' b'R')
      then (do
        field ← copy_char param item.attribute
        pure (pos 0, record item { attribute = field }))
      else pure (pos 0, item)

  -- DATA_ID_UCHAR
  abbrev pub set_todo_uchar : FormatParam → DataParam → TodoItem → M (State W) (ℤ × TodoItem)
  set_todo_uchar format param item =
      if named format (four b'M' b'A' b'R' b'K')
      then (do
        field ← copy_char param item.progress
        pure (pos 0, record item { progress = field }))
      else if named format (four b'P' b'R' b'T' b'Y')
      then (do
        field ← copy_char param item.priority
        pure (pos 0, record item { priority = field }))
      else pure (pos 0, item)

  -- DATA_ID_BARRAY
  abbrev pub set_todo_barray : FormatParam → DataParam → TodoItem → M (State W) (ℤ × TodoItem)
  set_todo_barray format param item =
      if named format (four b'C' b'T' b'G' b'R')
      then (do
        text ← copy_text p param
        stored_or 1 text (record item { category_len = param.param_len; category = text }))
      else pure (pos 0, item)

  -- DATA_ID_UTF8
  abbrev pub set_todo_utf8 : FormatParam → DataParam → TodoItem → M (State W) (ℤ × TodoItem)
  set_todo_utf8 format param item =
      if named format (four b'T' b'I' b'T' b'L')
      then (do
        text ← copy_text p param
        stored_or 2 text (record item { description_len = param.param_len; description = text }))
      else if named format (four b'M' b'E' b'M' b'1')
      then (do
        text ← copy_text p param
        stored_or 3 text (record item { notes_len = param.param_len; notes = text }))
      else pure (pos 0, item)

  -- DATA_ID_ULONG
  abbrev pub set_todo_ulong : FormatParam → DataParam → TodoItem → M (State W) (ℤ × TodoItem)
  set_todo_ulong format param item =
      if named format (four b'S' b'Y' b'I' b'D')
      then (do
        field ← copy_u32 p.order param item.sync_id
        pure (pos 0, record item { sync_id = field }))
      else pure (pos 0, item)

  -- The switch over the data type of a parameter.
  unfoldable pub set_todo : FormatParam → DataParam → TodoItem → M (State W) (ℤ × TodoItem)
  set_todo format param item =
      if format.type_id == data_id_time
      then set_todo_time format param item
      else if format.type_id == data_id_bit
      then set_todo_bit format param item
      else if format.type_id == data_id_uchar
      then set_todo_uchar format param item
      else if format.type_id == data_id_barray
      then set_todo_barray format param item
      else if format.type_id == data_id_utf8
      then set_todo_utf8 format param item
      else if format.type_id == data_id_ulong
      then set_todo_ulong format param item
      else pure (pos 0, item)

  -- The counts of the two arrays must agree. The loop runs over the format.
  unfoldable pub parse_todo_item_params :
      Option (List FormatParam)
      → ℕ
      → Option (List DataParam)
      → ℕ
      → TodoItem
      → M (State W) (ℤ × TodoItem)
  unfolding set_todo
  parse_todo_item_params formats num_format_params params num_params item =
      if not (num_format_params == num_params)
      then pure (negsuc 0, item)
      else each_param set_todo num_format_params (array formats) (array params) item
