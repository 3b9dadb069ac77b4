-- ===== src/Items/Todo/Columns/Stored.antt =====
-- What the parse of a todo item makes of one column.
use lib_zdtm_sync.Prelude.{ℕ, ◌≡◌, refl, List, length, arith}
use lib_zdtm_sync.Prelude.Int.{pos}
use lib_zdtm_sync.Bytes.{little}
use lib_zdtm_sync.Run.{ok, ◌>>=◌, overlay_full}
use lib_zdtm_sync.Env.{State}
use lib_zdtm_sync.Platform.{Platform, NeverFull}
use lib_zdtm_sync.Platform.Blocks.{after_mallocs, malloc-some}
use lib_zdtm_sync.Contents.{TodoItem}
use lib_zdtm_sync.Requests.Length.{read_all}
use lib_zdtm_sync.Replies.Adi.Texts
use lib_zdtm_sync.Replies.Adi.Texts.{Text}
use lib_zdtm_sync.Replies.Adr.Params
use lib_zdtm_sync.Items.Columns.{Stores}
use lib_zdtm_sync.Items.Columns.Numbers.{copy_u32-little}
use lib_zdtm_sync.Items.Todo.{set_todo}
use lib_zdtm_sync.Items.Todo.Columns.{
  TodoField, creation_date, modification_date, start_date, due_date, completed_date, attribute,
  progress, priority, category, description, notes, sync_id, unread, IsField, bytes_of, store,
  rooms, text_of, meaning, HasDates,
}

store-HasDates :
    (f : TodoField) (item : TodoItem) → IsField f → HasDates item → HasDates (store f item)
store-HasDates (creation_date date) item h (a, b, c, d, e) = (h, b, c, d, e)
store-HasDates (modification_date date) item h (a, b, c, d, e) = (a, h, c, d, e)
store-HasDates (start_date date) item h (a, b, c, d, e) = (a, b, h, d, e)
store-HasDates (due_date date) item h (a, b, c, d, e) = (a, b, c, h, e)
store-HasDates (completed_date date) item h (a, b, c, d, e) = (a, b, c, d, h)
store-HasDates (attribute value) item h i = i
store-HasDates (progress value) item h i = i
store-HasDates (priority value) item h i = i
store-HasDates (category text) item h i = i
store-HasDates (description text) item h i = i
store-HasDates (notes text) item h i = i
store-HasDates (sync_id value) item h i = i
store-HasDates (unread type_id abrev bytes) item h i = i

module _ {W : Type 0} (p : Platform W) where
  -- Each column is stored in its field, a text in a block of its own.
  set_todo-stores :
      (f : TodoField) (desc : List ℕ) (item : TodoItem) (s : State W)
      → NeverFull p
      → p.order ≡ little
      → IsField f
      → HasDates item
      → set_todo p
          (Texts.param (text_of (record { field = f; desc = desc })))
          (Params.param (bytes_of f))
          item
          s
        ≡ ok (pos 0, store f item) (after_mallocs p (rooms f) s)
  unfolding set_todo
  set_todo-stores (creation_date date) desc item s full order h (a, b, c, d, e) =
      rw
        (
          read_all (length date) date refl,
          overlay_full date item.creation_date (omega arith),
          ◌>>=◌,
        )
        refl
  set_todo-stores (modification_date date) desc item s full order h (a, b, c, d, e) =
      rw
        (
          read_all (length date) date refl,
          overlay_full date item.modification_date (omega arith),
          ◌>>=◌,
        )
        refl
  set_todo-stores (start_date date) desc item s full order h (a, b, c, d, e) =
      rw (read_all (length date) date refl, overlay_full date item.start_date (omega arith), ◌>>=◌)
        refl
  set_todo-stores (due_date date) desc item s full order h (a, b, c, d, e) =
      rw (read_all (length date) date refl, overlay_full date item.due_date (omega arith), ◌>>=◌)
        refl
  set_todo-stores (completed_date date) desc item s full order h (a, b, c, d, e) =
      rw
        (
          read_all (length date) date refl,
          overlay_full date item.completed_date (omega arith),
          ◌>>=◌,
        )
        refl
  set_todo-stores (attribute value) desc item s full order h i = refl
  set_todo-stores (progress value) desc item s full order h i = refl
  set_todo-stores (priority value) desc item s full order h i = refl
  set_todo-stores (category text) desc item s full order h i =
      let (block, alloc) = malloc-some p full (length text) s.sys in
      rw (alloc, read_all (length text) text refl, ◌>>=◌) refl
  set_todo-stores (description text) desc item s full order h i =
      let (block, alloc) = malloc-some p full (length text) s.sys in
      rw (alloc, read_all (length text) text refl, ◌>>=◌) refl
  set_todo-stores (notes text) desc item s full order h i =
      let (block, alloc) = malloc-some p full (length text) s.sys in
      rw (alloc, read_all (length text) text refl, ◌>>=◌) refl
  set_todo-stores (sync_id value) desc item s full order h i =
      rw (copy_u32-little p.order value item.sync_id s order h, ◌>>=◌) refl
  set_todo-stores (unread type_id abrev bytes) desc item s full order (a, b, c, d, e, f) i =
      rw (a, b, c, d, e, f) refl

  pub set_todo-Stores :
      NeverFull p → p.order ≡ little → Stores meaning p (set_todo p) (λ c. IsField c.field) HasDates
  set_todo-Stores full order = record {
    runs = λ c item s h i. set_todo-stores c.field c.desc item s full order h i;
    keeps = λ c item h i. store-HasDates c.field item h i;
  }
