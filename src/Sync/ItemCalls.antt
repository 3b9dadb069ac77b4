-- ===== src/Sync/ItemCalls.antt =====
-- Obtaining and deleting items (zdtm_obtain_todo_item, zdtm_obtain_calendar_item,
-- zdtm_obtain_address_item and zdtm_delete_item of src/zdtm_sync.c).
use lib_zdtm_sync.Prelude.{ℕ, Option, List, not, ◌==◌}
use lib_zdtm_sync.Prelude.Int.{ℤ, pos, negsuc, nonzero}
use lib_zdtm_sync.Run.{M, pure, defined, ◌>>=◌, ◌>>◌, return_if}
use lib_zdtm_sync.Env.{State, FormatParam, get_env}
use lib_zdtm_sync.Platform.{Platform}
use lib_zdtm_sync.Contents.{DataParam, TodoItem}
use lib_zdtm_sync.Items.Todo.{parse_todo_item_params}
use lib_zdtm_sync.Items.Calendar.{CalendarItem, parse_calendar_item_params}
use lib_zdtm_sync.Items.Address.{AddressItem, parse_address_item_params}
use lib_zdtm_sync.Message
use lib_zdtm_sync.Message.{new_msg, rdd_msg_type, aex_msg_type}
use lib_zdtm_sync.Msgs.{clean_message}
use lib_zdtm_sync.Proto.{reply, refused, ask}
use lib_zdtm_sync.Proto.Item.{obtain_item, free_params}

-- SYNC_TYPE_TODO, SYNC_TYPE_CALENDAR and SYNC_TYPE_ADDRESS
abbrev pub sync_type_todo : ℕ
sync_type_todo = 0x06

abbrev pub sync_type_calendar : ℕ
sync_type_calendar = 0x01

abbrev pub sync_type_address : ℕ
sync_type_address = 0x07

module _ {W : Type 0} (p : Platform W) where
  -- The three functions differ in the type that they ask for and in the function that parses.
  unfoldable pub obtain_parsed :
      {Item : Type 0}
      → ℕ
      → (Option (List FormatParam)
          → ℕ
          → Option (List DataParam)
          → ℕ
          → Item
          → M (State W) (ℤ × Item))
      → ℕ
      → Item
      → M (State W) (ℤ × Item)
  obtain_parsed sync_type parse sync_id item = do
    env ← get_env
    return_if (not (env.sync_type == sync_type)) (pure (negsuc 0, item))
    (r, params) ← obtain_item p sync_id
    return_if (nonzero r) (pure (negsuc 1, item))
    (params, num_params) ← defined params
    env ← get_env
    (r, item) ← parse env.params env.num_params params num_params item
    return_if (nonzero r) (do _ ← free_params params num_params; pure (negsuc 2, item))
    _ ← free_params params num_params
    pure (pos 0, item)

  unfoldable pub obtain_todo_item : ℕ → TodoItem → M (State W) (ℤ × TodoItem)
  unfolding obtain_parsed
  obtain_todo_item = obtain_parsed sync_type_todo (parse_todo_item_params p)

  unfoldable pub obtain_calendar_item : ℕ → CalendarItem → M (State W) (ℤ × CalendarItem)
  unfolding obtain_parsed
  obtain_calendar_item = obtain_parsed sync_type_calendar (parse_calendar_item_params p)

  unfoldable pub obtain_address_item : ℕ → AddressItem → M (State W) (ℤ × AddressItem)
  unfolding obtain_parsed
  obtain_address_item = obtain_parsed sync_type_address (parse_address_item_params p)

  unfoldable pub delete_item : ℕ → M (State W) ℤ
  delete_item sync_id = do
    env ← get_env
    answer ←
        ask p 0
          (new_msg rdd_msg_type (
            Message.rdd
              (record { sync_type = env.sync_type; num_sync_ids = 1; sync_id = sync_id })))
          aex_msg_type
    elim answer [ refused r ↦ pure r | reply rmsg ↦ do _ ← clean_message rmsg; pure (pos 0) ]
