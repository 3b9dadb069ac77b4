-- ===== src/Sync/Obtained/Todo.antt =====
-- A todo item of the device in the struct of the caller (zdtm_obtain_todo_item of src/zdtm_sync.c).
use lib_zdtm_sync.Prelude.{ℕ, ◌+◌, ◌≡◌, refl, true, ◌==◌, some, List, map, length}
use lib_zdtm_sync.Prelude.Int.{pos}
use lib_zdtm_sync.Bytes.{little}
use lib_zdtm_sync.Run.{ok}
use lib_zdtm_sync.Env.{State}
use lib_zdtm_sync.Platform.{Platform}
use lib_zdtm_sync.Contents.{TodoItem}
use lib_zdtm_sync.Items.Todo.{set_todo, parse_todo_item_params}
use lib_zdtm_sync.Replies.Kinds.{adr, IsReply}
use lib_zdtm_sync.Proto.Talk.{Cover, IsCover, Connected, says}
use lib_zdtm_sync.Items.Columns.{format, stored, all_rooms, All, values, parse-stored}
use lib_zdtm_sync.Items.Todo.Columns.{Column, IsField, HasDates, meaning}
use lib_zdtm_sync.Items.Todo.Columns.Stored.{set_todo-Stores}
use lib_zdtm_sync.Sync.ItemCalls.{sync_type_todo, obtain_todo_item}
use lib_zdtm_sync.Sync.Obtained.{emptied, obtain_parsed-says}

module _ {W : Type 0} (p : Platform W) where
  -- Where a device that a little-endian host is connected to has a todo item, and the environment
  -- has the format of its columns, the call returns 0 and stores the item: each column that the
  -- device sends is in the field that the format names for it, the last one where a field comes
  -- twice, and every other field is as it was. Nothing behind the reply is read. Of the blocks
  -- those of the item's texts stay, and one for each column without a value, which is not freed. A
  -- value has the size of its field, and so have the dates of the struct before. The host has the
  -- memory that it asks for, the connection takes all that is sent, snprintf prints what it
  -- documents, and neither malloc, nor sending, nor writing to the log, be it open or not, touches
  -- what is to come.
  pub obtain_todo_item-says :
      (pending : W → List ℕ) (id : ℕ) (item : TodoItem) (cs : List Column) (uk : List ℕ) (c : Cover)
      (rest : List ℕ) (s : State W)
      → Connected p pending s.env
      → p.order ≡ little
      → (s.env.sync_type == sync_type_todo) ≡ true
      → s.env.params ≡ some (map (format meaning) cs)
      → s.env.num_params ≡ length cs
      → All meaning (λ c. IsField c.field) cs
      → HasDates item
      → IsReply (adr uk (values meaning cs))
      → IsCover c
      → pending s.sys ≡ says c (adr uk (values meaning cs)) rest
      → (w : W) × (obtain_todo_item p id item s
          ≡ ok
              (pos 0, stored meaning cs item)
              (record s {
                sys = w;
                blocks = s.blocks + length (all_rooms meaning cs) + emptied (values meaning cs);
              }))
        × (pending w ≡ rest)
  unfolding obtain_todo_item parse_todo_item_params
  obtain_todo_item-says pending id item cs uk c rest s k order type formats num fields dates h i e =
      obtain_parsed-says p pending sync_type_todo (parse_todo_item_params p) id item
        (stored meaning cs item) (all_rooms meaning cs) uk (values meaning cs) c rest s k order type
        h i
        (λ t.
          parse-stored meaning p (parse_todo_item_params p) (set_todo p) (λ c. IsField c.field)
            HasDates s.env.params s.env.num_params cs item t (λ f n d k i. refl)
            (set_todo-Stores p k.undisturbed.full order) fields dates formats num)
        e
