-- ===== src/Requests/Todo.antt =====
-- The bytes that zdtm_todo_write puts into a message against what zdtm_todo_length asks room for
-- (src/zdtm_common.c).
use lib_zdtm_sync.Prelude.{
  ℕ, ◌+◌, ◌≤◌, ◌<◌, ◌≡◌, ◌⊎◌, ap, ◌∙◌, inl, inr, Option, none, some, List, [], ◌∷◌, length,
  length-append, arith, refl, zero, suc,
}
use lib_zdtm_sync.Prelude.Int.{pos, to_int}
use lib_zdtm_sync.Run.{split_short}
use lib_zdtm_sync.Bytes.{Endian, little, big, store32}
use lib_zdtm_sync.Contents.{TodoItem}
use lib_zdtm_sync.Requests.Buffer.{Written, wrote, null_after, invalid, pointee, read, ◌then_copy◌}
use lib_zdtm_sync.Requests.Rdw.{to_int-small, todo_length, store_category_len, todo_write}

-- The arrays have the sizes of the struct, and the texts the lengths that stand beside them.
pub record IsTodo (todo : TodoItem) : Type 0 where
  pub category_size : length (pointee todo.category) ≡ todo.category_len
  pub start_size : length todo.start_date ≡ 5
  pub due_size : length todo.due_date ≡ 5
  pub completed_size : length todo.completed_date ≡ 5
  pub description_size : length (pointee todo.description) ≡ todo.description_len
  pub notes_size : length (pointee todo.notes) ≡ todo.notes_len

-- n bytes so far
unfoldable pub Wrote : ℕ → Written → Type 0
Wrote n (wrote b) = length b ≡ n
Wrote n (null_after b) = ⊥
Wrote n invalid = ⊥

-- n bytes to copy
unfoldable Copies : ℕ → Option (List ℕ) → Type 0
Copies n none = ⊥
Copies n (some b) = length b ≡ n

copy-Wrote :
    (n m : ℕ) (w : Written) (o : Option (List ℕ))
    → Wrote n w
    → Copies m o
    → Wrote (n + m) (w then_copy o)
unfolding Wrote Copies
copy-Wrote n m (wrote b) none h k = elim k [ ]
copy-Wrote n m (wrote b) (some c) h k = omega (arith, length-append b c)
copy-Wrote n m (null_after b) o h k = elim h [ ]
copy-Wrote n m invalid o h k = elim h [ ]

read-Copies : (n : ℕ) (b : List ℕ) → n ≤ length b → Copies n (read n b)
unfolding Copies
read-Copies zero b h = omega arith
read-Copies (suc n) [] h = absurd (omega arith)
read-Copies (suc n) (x ∷ b) h = ground (arith, read-Copies n b)

store32-Copies : (e : Endian) (n : ℕ) → Copies 4 (some (store32 e n))
unfolding store32 Copies
store32-Copies little n = refl
store32-Copies big n = refl

store_category_len-Copies :
    (e : Endian) (todo : TodoItem) → Copies 4 (some (store_category_len e todo))
unfolding store_category_len Copies
store_category_len-Copies little todo = refl
store_category_len-Copies big todo = store32-Copies big todo.category_len

byte-Copies : (x : ℕ) → Copies 1 (some (x ∷ []))
unfolding Copies
byte-Copies x = refl

start-Wrote : (b : List ℕ) → Wrote (length b) (wrote b)
unfolding Wrote
start-Wrote b = refl

ruleset sizes =
    (copy-Wrote, store32-Copies, store_category_len-Copies, byte-Copies, start-Wrote, read-Copies)

-- the number of bytes that zdtm_todo_write puts behind n bytes
abbrev todo_end : ℕ → TodoItem → ℕ
todo_end n todo = n + 4 + todo.category_len + 4 + 5 + 4 + 5 + 4 + 5 + 4 + 1 + 4 + 1 + 4 + 4 + 4 + 4

todo_write-Wrote :
    (e : Endian) (b : List ℕ) (todo : TodoItem)
    → IsTodo todo
    → 4 ≤ todo.description_len
    → 4 ≤ todo.notes_len
    → Wrote (todo_end (length b) todo) (todo_write e (wrote b) todo)
unfolding todo_write
todo_write-Wrote e b todo t d n =
    let category : todo.category_len ≤ length (pointee todo.category) =
      omega (arith, t.category_size) in
    let start : 5 ≤ length todo.start_date = omega (arith, t.start_size) in
    let due : 5 ≤ length todo.due_date = omega (arith, t.due_size) in
    let completed : 5 ≤ length todo.completed_date = omega (arith, t.completed_size) in
    let description : 4 ≤ length (pointee todo.description) = omega (arith, t.description_size) in
    let notes : 4 ≤ length (pointee todo.notes) = omega (arith, t.notes_size) in
    search sizes depth 24

-- what Wrote says, with the bytes
Wrote-bytes :
    (n : ℕ) (w : Written) → Wrote n w → (out : List ℕ) × (w ≡ wrote out) × (length out ≡ n)
unfolding Wrote
Wrote-bytes n (wrote b) h = (b, refl, h)
Wrote-bytes n (null_after b) h = elim h [ ]
Wrote-bytes n invalid h = elim h [ ]

-- A todo item whose description and notes have four bytes at least is written, but of each of these
-- texts only four bytes: with their lengths, the bytes that are missing make up what
-- zdtm_todo_length says and eight more, where an int holds the total of the lengths.
pub todo_write-length :
    (e : Endian) (b : List ℕ) (todo : TodoItem)
    → IsTodo todo
    → 4 ≤ todo.description_len
    → 4 ≤ todo.notes_len
    → 49 + todo.category_len + todo.description_len + todo.notes_len < 2147483648
    → (out : List ℕ) × (n : ℕ) × (todo_write e (wrote b) todo ≡ wrote out)
      × (todo_length todo ≡ pos n)
      × (length out + todo.description_len + todo.notes_len ≡ length b + n + 8)
unfolding todo_length
todo_write-length e b todo t d n fits =
    let total = 49 + todo.category_len + todo.description_len + todo.notes_len in
    let (out, run, size) =
      Wrote-bytes (todo_end (length b) todo) (todo_write e (wrote b) todo)
        (todo_write-Wrote e b todo t d n) in
    (out, total, run, ap to_int (omega arith) ∙ to_int-small total fits, omega (arith, size))

-- no NULL so far
unfoldable IsSound : Written → Type 0
IsSound (wrote b) = Unit {0}
IsSound (null_after b) = ⊥
IsSound invalid = Unit {0}

start-IsSound : (b : List ℕ) → IsSound (wrote b)
unfolding IsSound
start-IsSound b = tt

copy-IsSound : (w : Written) (o : Option (List ℕ)) → IsSound w → IsSound (w then_copy o)
unfolding IsSound
copy-IsSound (wrote b) none h = tt
copy-IsSound (wrote b) (some c) h = tt
copy-IsSound (null_after b) o h = elim h [ ]
copy-IsSound invalid o h = tt

-- a copy that reads outside an object, and whatever is written behind it
copy-none :
    (w : Written) (o p : Option (List ℕ))
    → IsSound w
    → (w then_copy none then_copy o then_copy p) ≡ invalid
unfolding IsSound
copy-none (wrote b) o p h = refl
copy-none (null_after b) o p h = elim h [ ]
copy-none invalid o p h = refl

last-none : (w : Written) → IsSound w → (w then_copy none) ≡ invalid
unfolding IsSound
last-none (wrote b) h = refl
last-none (null_after b) h = elim h [ ]
last-none invalid h = refl

read-short : (n : ℕ) (b : List ℕ) → length b + 1 ≤ n → read n b ≡ none
read-short n b h = rw (split_short n b h, read) refl

-- A todo item whose description or notes are shorter than four bytes is not written at all: four
-- bytes are read from the text, so the read leaves the object, which is undefined behaviour.
pub todo_write-short :
    (e : Endian) (b : List ℕ) (todo : TodoItem)
    → IsTodo todo
    → (todo.description_len + 1 ≤ 4) ⊎ (todo.notes_len + 1 ≤ 4)
    → todo_write e (wrote b) todo ≡ invalid
unfolding todo_write
todo_write-short e b todo t (inl h) =
    let short : length (pointee todo.description) + 1 ≤ 4 = omega (arith, t.description_size) in
    rw (read-short 4 (pointee todo.description) short, todo_write)
      (copy-none _ _ _ (search (copy-IsSound, start-IsSound) depth 24))
todo_write-short e b todo t (inr h) =
    let short : length (pointee todo.notes) + 1 ≤ 4 = omega (arith, t.notes_size) in
    rw (read-short 4 (pointee todo.notes) short, todo_write)
      (last-none _ (search (copy-IsSound, start-IsSound) depth 24))
