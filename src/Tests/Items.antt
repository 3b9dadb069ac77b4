-- ===== src/Tests/Items.antt =====
-- The sizes of items on concrete items.
use lib_zdtm_sync.Prelude.{
  ℕ, ◌+◌, ◌≡◌, refl, inr, some, List, [], ◌∷◌, map, replicate, length, arith,
}
use lib_zdtm_sync.Bytes.{little}
use lib_zdtm_sync.Contents.{TodoItem}
use lib_zdtm_sync.Requests.{wrote, invalid}
use lib_zdtm_sync.Prelude.Int.{pos}
use lib_zdtm_sync.Requests.Rdw.{todo_length, todo_write}
use lib_zdtm_sync.Requests.Todo.{IsTodo, todo_write-length, todo_write-short}
use lib_zdtm_sync.Items.AddressFields.{category, text_entries}
use lib_zdtm_sync.Items.Address.{AddressItem}
use lib_zdtm_sync.Items.Length.{texts_length, address_length, address_length-text_entries}

-- A todo item whose notes have six bytes.
abbrev with_notes : List ℕ → TodoItem
with_notes notes = record {
  attribute = 0;
  creation_date = replicate 5 0;
  modification_date = replicate 5 0;
  sync_id = 0;
  category_len = 1;
  category = some (7 ∷ []);
  start_date = replicate 5 0;
  due_date = replicate 5 0;
  completed_date = replicate 5 0;
  progress = 1;
  priority = 3;
  description_len = 4;
  description = some (b'm' ∷ b'i' ∷ b'l' ∷ b'k' ∷ []);
  notes_len = length notes;
  notes = some notes;
}

with_notes-IsTodo : (notes : List ℕ) → IsTodo (with_notes notes)
with_notes-IsTodo notes = record {
  category_size = refl;
  start_size = refl;
  due_size = refl;
  completed_size = refl;
  description_size = refl;
  notes_size = refl;
}

todo_write-length_example :
    (out : List ℕ) × (n : ℕ) × (todo_write little (wrote []) (with_notes (replicate 6 1))
      ≡ wrote out)
    × (todo_length (with_notes (replicate 6 1)) ≡ pos n)
    × (length out + 4 + 6 ≡ 0 + n + 8)
todo_write-length_example =
    todo_write-length little [] (with_notes (replicate 6 1)) (with_notes-IsTodo (replicate 6 1))
      (omega arith) (omega arith) (omega arith)

todo_write-short_example : todo_write little (wrote []) (with_notes (replicate 3 1)) ≡ invalid
todo_write-short_example =
    todo_write-short little [] (with_notes (replicate 3 1)) (with_notes-IsTodo (replicate 3 1))
      (inr (omega arith))

abbrev of_two : AddressItem
of_two = record {
  attribute = 0;
  creation_date = replicate 5 0;
  modification_date = replicate 5 0;
  sync_id = 0;
  texts = λ f. record { len = 2; bytes = some (b'x' ∷ b'y' ∷ []) };
}

address_length-text_entries_example :
    (n : ℕ) × (address_length of_two ≡ pos n)
    × (texts_length (category ∷ map (λ e. e.field) text_entries) of_two ≡ n + (4 + 2))
address_length-text_entries_example = address_length-text_entries of_two (omega arith)
