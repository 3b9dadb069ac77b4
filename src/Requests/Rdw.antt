-- ===== src/Requests/Rdw.antt =====
-- The message that writes an item, and the todo item in it (src/zdtm_rdw_msg.c and
-- zdtm_todo_length, zdtm_todo_write of src/zdtm_common.c).
use lib_zdtm_sync.Prelude.{
  ℕ, ◌+◌, ◌%◌, ◌<◌, ◌≡◌, arith, some, List, [], ◌∷◌, ◌++◌, if◌then◌else◌, ◌==◌,
}
use lib_zdtm_sync.Prelude.Int.{ℤ, pos, negsuc, to_int, ◌+ℤ◌}
use lib_zdtm_sync.Bytes.{Endian, little, big, mem32, store16, store32, liltobigs}
use lib_zdtm_sync.Contents.{TodoItem, Variation, one, two, three, Rdw}
use lib_zdtm_sync.Requests.Buffer.{Written, wrote, null_after, invalid, pointee, read, ◌then_copy◌}

-- A total that an int holds.
pub to_int-small : (n : ℕ) → n < 2147483648 → to_int n ≡ pos n
unfolding to_int
to_int-small n h = ground arith

-- zdtm_todo_length: each of the eight fields with the four bytes of its length.
-- The total is a size_t, which an int is made of.
unfoldable pub todo_length : TodoItem → ℤ
unfolding to_int
todo_length todo = to_int (
    4
    + todo.category_len
    + (4 + 5)
    + (4 + 5)
    + (4 + 5)
    + (4 + 1)
    + (4 + 1)
    + (4 + todo.description_len)
    + (4 + todo.notes_len))

-- The length of the category: a little-endian build stores sizeof(todo->category_len) instead.
unfoldable pub store_category_len : Endian → TodoItem → List ℕ
store_category_len little todo = mem32 little 4
store_category_len big todo = store32 big todo.category_len

-- zdtm_todo_write, behind the bytes written so far. Of the description and of the notes it copies
-- sizeof(uint32_t) bytes, whatever their lengths.
unfoldable pub todo_write : Endian → Written → TodoItem → Written
unfolding store_category_len
todo_write e buf todo =
    buf
    then_copy some (store_category_len e todo)
    then_copy read todo.category_len (pointee todo.category)
    then_copy some (store32 e 5)
    then_copy read 5 todo.start_date
    then_copy some (store32 e 5)
    then_copy read 5 todo.due_date
    then_copy some (store32 e 5)
    then_copy read 5 todo.completed_date
    then_copy some (store32 e 1)
    then_copy some (todo.progress ∷ [])
    then_copy some (store32 e 1)
    then_copy some (todo.priority ∷ [])
    then_copy some (store32 e todo.description_len)
    then_copy read 4 (pointee todo.description)
    then_copy some (store32 e todo.notes_len)
    then_copy read 4 (pointee todo.notes)

-- SYNC_TYPE_TODO
abbrev pub sync_type_todo : ℕ
sync_type_todo = 0x06

-- RET_UNK_TYPE and RET_UNK_VAR
abbrev pub ret_unk_type : ℤ
ret_unk_type = negsuc 9

abbrev pub ret_unk_var : ℤ
ret_unk_var = negsuc 11

-- A total that no int holds is a number here; in C the addition overflows.
unfoldable pub rdw_length : Rdw → ℤ
unfolding todo_length
rdw_length rdw =
    if rdw.variation == 1
    then (if rdw.sync_type == sync_type_todo
        then pos (1 + 2 + 4 + 16) +ℤ todo_length rdw.todo
        else ret_unk_type)
    else if rdw.variation == 2
    then pos (1 + 2 + 4 + (4 + 1))
    else if rdw.variation == 3
    then (if rdw.sync_type == sync_type_todo
        then pos (1 + 2 + 4 + (4 + 1 + 4 + 5 + 4 + 5 + 4 + 4)) +ℤ todo_length rdw.todo
        else ret_unk_type)
    else ret_unk_var

-- NULL is returned behind the bytes written so far.
abbrev give_up : Written → Written
give_up (wrote b) = null_after b
give_up (null_after b) = null_after b
give_up invalid = invalid

abbrev pub item_write : Endian → Rdw → Written → Written
item_write e rdw buf =
    if rdw.sync_type == sync_type_todo then todo_write e buf rdw.todo else give_up buf

-- The part that is peculiar to a variation. Reading another member of the union than the one that
-- was stored is not modelled: it is `invalid`.
abbrev pub write_one : Endian → Rdw → Written → Variation → Written
write_one e rdw buf (one padding) = item_write e rdw (buf then_copy read 16 padding)
write_one e rdw buf (two attribute) = invalid
write_one e rdw buf (three attribute created modified sync_id) = invalid

abbrev pub write_two : Endian → Written → Variation → Written
write_two e buf (one padding) = invalid
write_two e buf (two attribute) = buf then_copy some (store32 e 1) then_copy some (attribute ∷ [])
write_two e buf (three attribute created modified sync_id) = invalid

abbrev pub write_three : Endian → Rdw → Written → Variation → Written
write_three e rdw buf (one padding) = invalid
write_three e rdw buf (two attribute) = invalid
write_three e rdw buf (three attribute created modified sync_id) = item_write e rdw (
    buf
    then_copy some (store32 e 1)
    then_copy some (attribute ∷ [])
    then_copy some (store32 e 5)
    then_copy read 5 created
    then_copy some (store32 e 5)
    then_copy read 5 modified
    then_copy some (store32 e 4)
    then_copy some (mem32 e sync_id))

-- The store of the first sync id: a big-endian build passes it through the conversion of a uint16_t.
abbrev pub rdw_head : Endian → Rdw → Written
rdw_head little rdw =
    wrote (rdw.sync_type ∷ (store16 little rdw.num_sync_ids ++ mem32 little rdw.sync_id))
rdw_head big rdw = wrote (
    rdw.sync_type
    ∷ (store16 big rdw.num_sync_ids ++ mem32 big (liltobigs big (rdw.sync_id % 65536))))

unfoldable pub rdw_write : Endian → Rdw → Written
unfolding todo_write
rdw_write e rdw =
    if rdw.variation == 1
    then write_one e rdw (rdw_head e rdw) rdw.vars
    else if rdw.variation == 2
    then write_two e (rdw_head e rdw) rdw.vars
    else if rdw.variation == 3
    then write_three e rdw (rdw_head e rdw) rdw.vars
    else rdw_head e rdw
