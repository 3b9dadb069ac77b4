-- ===== src/Items/Calendar/Columns/Stored.antt =====
-- What the parse of a calendar item makes of one column.
use lib_zdtm_sync.Prelude.{ℕ, ◌≡◌, refl, List, length, arith}
use lib_zdtm_sync.Prelude.Int.{pos}
use lib_zdtm_sync.Bytes.{little}
use lib_zdtm_sync.Run.{ok, ◌>>=◌, overlay_full}
use lib_zdtm_sync.Env.{State}
use lib_zdtm_sync.Platform.{Platform, NeverFull}
use lib_zdtm_sync.Platform.Blocks.{after_mallocs, malloc-some}
use lib_zdtm_sync.Requests.Length.{read_all}
use lib_zdtm_sync.Replies.Adi.Texts
use lib_zdtm_sync.Replies.Adi.Texts.{Text}
use lib_zdtm_sync.Replies.Adr.Params
use lib_zdtm_sync.Items.Columns.{Stores}
use lib_zdtm_sync.Items.Columns.Numbers.{copy_u16-little, copy_u32-little}
use lib_zdtm_sync.Items.Calendar.{CalendarItem, set_calendar}
use lib_zdtm_sync.Items.Calendar.Columns.{
  CalendarField, creation_date, modification_date, start_time, end_time, repeat_end_date,
  all_day_start_date, all_day_end_date, attribute, schedule_type, alarm, alarm_setting, repeat_type,
  repeat_date, repeat_end_date_setting, multiple_days_flag, alarm_time, repeat_period,
  repeat_position, category, description, location, notes, sync_id, unread, IsField, bytes_of,
  store, rooms, text_of, meaning, HasDates,
}

store-HasDates :
    (f : CalendarField) (item : CalendarItem) → IsField f → HasDates item → HasDates (store f item)
store-HasDates (creation_date date) item h (a, b, c, d, e, f, g) = (h, b, c, d, e, f, g)
store-HasDates (modification_date date) item h (a, b, c, d, e, f, g) = (a, h, c, d, e, f, g)
store-HasDates (start_time date) item h (a, b, c, d, e, f, g) = (a, b, h, d, e, f, g)
store-HasDates (end_time date) item h (a, b, c, d, e, f, g) = (a, b, c, h, e, f, g)
store-HasDates (repeat_end_date date) item h (a, b, c, d, e, f, g) = (a, b, c, d, h, f, g)
store-HasDates (all_day_start_date date) item h (a, b, c, d, e, f, g) = (a, b, c, d, e, h, g)
store-HasDates (all_day_end_date date) item h (a, b, c, d, e, f, g) = (a, b, c, d, e, f, h)
store-HasDates (attribute value) item h i = i
store-HasDates (schedule_type value) item h i = i
store-HasDates (alarm value) item h i = i
store-HasDates (alarm_setting value) item h i = i
store-HasDates (repeat_type value) item h i = i
store-HasDates (repeat_date value) item h i = i
store-HasDates (repeat_end_date_setting value) item h i = i
store-HasDates (multiple_days_flag value) item h i = i
store-HasDates (alarm_time value) item h i = i
store-HasDates (repeat_period value) item h i = i
store-HasDates (repeat_position value) item h i = i
store-HasDates (category text) item h i = i
store-HasDates (description text) item h i = i
store-HasDates (location text) item h i = i
store-HasDates (notes text) item h i = i
store-HasDates (sync_id value) item h i = i
store-HasDates (unread type_id abrev bytes) item h i = i

module _ {W : Type 0} (p : Platform W) where
  -- Each column is stored in its field, a text in a block of its own.
  set_calendar-stores :
      (f : CalendarField) (desc : List ℕ) (item : CalendarItem) (s : State W)
      → NeverFull p
      → p.order ≡ little
      → IsField f
      → HasDates item
      → set_calendar p
          (Texts.param (text_of (record { field = f; desc = desc })))
          (Params.param (bytes_of f))
          item
          s
        ≡ ok (pos 0, store f item) (after_mallocs p (rooms f) s)
  unfolding set_calendar
  set_calendar-stores (creation_date date) desc item s full order h (a, b, c, d, e, f, g) =
      rw
        (
          read_all (length date) date refl,
          overlay_full date item.creation_date (omega arith),
          ◌>>=◌,
        )
        refl
  set_calendar-stores (modification_date date) desc item s full order h (a, b, c, d, e, f, g) =
      rw
        (
          read_all (length date) date refl,
          overlay_full date item.modification_date (omega arith),
          ◌>>=◌,
        )
        refl
  set_calendar-stores (start_time date) desc item s full order h (a, b, c, d, e, f, g) =
      rw (read_all (length date) date refl, overlay_full date item.start_time (omega arith), ◌>>=◌)
        refl
  set_calendar-stores (end_time date) desc item s full order h (a, b, c, d, e, f, g) =
      rw (read_all (length date) date refl, overlay_full date item.end_time (omega arith), ◌>>=◌)
        refl
  set_calendar-stores (repeat_end_date date) desc item s full order h (a, b, c, d, e, f, g) =
      rw
        (
          read_all (length date) date refl,
          overlay_full date item.repeat_end_date (omega arith),
          ◌>>=◌,
        )
        refl
  set_calendar-stores (all_day_start_date date) desc item s full order h (a, b, c, d, e, f, g) =
      rw
        (
          read_all (length date) date refl,
          overlay_full date item.all_day_start_date (omega arith),
          ◌>>=◌,
        )
        refl
  set_calendar-stores (all_day_end_date date) desc item s full order h (a, b, c, d, e, f, g) =
      rw
        (
          read_all (length date) date refl,
          overlay_full date item.all_day_end_date (omega arith),
          ◌>>=◌,
        )
        refl
  set_calendar-stores (attribute value) desc item s full order h i = refl
  set_calendar-stores (schedule_type value) desc item s full order h i = refl
  set_calendar-stores (alarm value) desc item s full order h i = refl
  set_calendar-stores (alarm_setting value) desc item s full order h i = refl
  set_calendar-stores (repeat_type value) desc item s full order h i = refl
  set_calendar-stores (repeat_date value) desc item s full order h i = refl
  set_calendar-stores (repeat_end_date_setting value) desc item s full order h i = refl
  set_calendar-stores (multiple_days_flag value) desc item s full order h i = refl
  set_calendar-stores (alarm_time value) desc item s full order h i =
      rw (copy_u16-little p.order value item.alarm_time s order h, ◌>>=◌) refl
  set_calendar-stores (repeat_period value) desc item s full order h i =
      rw (copy_u16-little p.order value item.repeat_period s order h, ◌>>=◌) refl
  set_calendar-stores (repeat_position value) desc item s full order h i =
      rw (copy_u16-little p.order value item.repeat_position s order h, ◌>>=◌) refl
  set_calendar-stores (category text) desc item s full order h i =
      let (block, alloc) = malloc-some p full (length text) s.sys in
      rw (alloc, read_all (length text) text refl, ◌>>=◌) refl
  set_calendar-stores (description text) desc item s full order h i =
      let (block, alloc) = malloc-some p full (length text) s.sys in
      rw (alloc, read_all (length text) text refl, ◌>>=◌) refl
  set_calendar-stores (location text) desc item s full order h i =
      let (block, alloc) = malloc-some p full (length text) s.sys in
      rw (alloc, read_all (length text) text refl, ◌>>=◌) refl
  set_calendar-stores (notes text) desc item s full order h i =
      let (block, alloc) = malloc-some p full (length text) s.sys in
      rw (alloc, read_all (length text) text refl, ◌>>=◌) refl
  set_calendar-stores (sync_id value) desc item s full order h i =
      rw (copy_u32-little p.order value item.sync_id s order h, ◌>>=◌) refl
  set_calendar-stores (unread type_id abrev bytes) desc item s full order (a, b, c, d, e, f, g) i =
      rw (a, b, c, d, e, f, g) refl

  pub set_calendar-Stores :
      NeverFull p
      → p.order ≡ little
      → Stores meaning p (set_calendar p) (λ c. IsField c.field) HasDates
  set_calendar-Stores full order = record {
    runs = λ c item s h i. set_calendar-stores c.field c.desc item s full order h i;
    keeps = λ c item h i. store-HasDates c.field item h i;
  }
