-- ===== src/Tests/Obtained.antt =====
-- A todo item on the simulated host.
pub mod Calendar
pub mod Address
use lib_zdtm_sync.Prelude.{
  ℕ, ◌+◌, ◌≡◌, refl, none, some, List, [], ◌∷◌, map, length, replicate, arith,
}
use lib_zdtm_sync.Prelude.Int.{pos}
use lib_zdtm_sync.Run.{ok}
use lib_zdtm_sync.Env.{Env}
use lib_zdtm_sync.Contents.{TodoItem}
use lib_zdtm_sync.Items.Columns.{format, stored, values}
use lib_zdtm_sync.Items.Todo.Columns.{
  TodoField, Column, creation_date, priority, category, description, notes, sync_id, unread,
  meaning,
}
use lib_zdtm_sync.Replies.Kinds.{adr}
use lib_zdtm_sync.Proto.Talk.{Connected, says}
use lib_zdtm_sync.Sync.ItemCalls.{obtain_todo_item}
use lib_zdtm_sync.Sync.Obtained.Todo.{obtain_todo_item-says}
use lib_zdtm_sync.Tests.Host.{World}
use lib_zdtm_sync.Tests.Told.{clock, begin, cover, cover-IsCover, fresh_env, clock-Connected}

abbrev column : TodoField → Column
column f = record { field = f; desc = b'?' ∷ [] }

-- Buy milk, with no notes, and a column that the library does not know.
abbrev pub milk : List Column
milk =
    column (sync_id 70000)
    ∷ column (creation_date (replicate 5 1))
    ∷ column (category (5 ∷ []))
    ∷ column (priority 3)
    ∷ column (description (b'm' ∷ b'i' ∷ b'l' ∷ b'k' ∷ []))
    ∷ column (notes [])
    ∷ column (unread 0x63 (replicate 4 b'Z') (1 ∷ 2 ∷ []))
    ∷ []

abbrev pub no_item : TodoItem
no_item = record {
  attribute = 0;
  creation_date = replicate 5 0;
  modification_date = replicate 5 0;
  sync_id = 0;
  category_len = 0;
  category = none;
  start_date = replicate 5 0;
  due_date = replicate 5 0;
  completed_date = replicate 5 0;
  progress = 0;
  priority = 0;
  description_len = 0;
  description = none;
  notes_len = 0;
  notes = none;
}

abbrev formatted : Env
formatted = record fresh_env { num_params = 7; params = some (map (format meaning) milk) }

formatted-Connected : Connected clock (λ w. w.incoming) formatted
formatted-Connected = record {
  exact = clock-Connected.exact;
  stream = clock-Connected.stream;
  undisturbed = clock-Connected.undisturbed;
  takes_all = clock-Connected.takes_all;
  rounds = omega arith;
  apart = λ b w. refl;
}

-- The texts take three blocks, and the notes are the column without a value.
obtain_todo_item-says_example :
    (w : World) × (obtain_todo_item clock 70000 no_item
        (begin formatted (says cover (adr (0 ∷ 0 ∷ []) (values meaning milk)) []))
      ≡ ok (pos 0, stored meaning milk no_item) (record { env = formatted; sys = w; blocks = 4 }))
    × (w.incoming ≡ [])
obtain_todo_item-says_example =
    obtain_todo_item-says clock (λ w. w.incoming) 70000 no_item milk (0 ∷ 0 ∷ []) cover []
      (begin formatted (says cover (adr (0 ∷ 0 ∷ []) (values meaning milk)) [])) formatted-Connected
      refl refl refl refl
      (omega arith, (refl, (tt, (tt, (tt, (tt, ((refl, refl, refl, refl, refl, refl), tt)))))))
      (refl, refl, refl, refl, refl)
      (
        refl,
        omega arith,
        (
          omega arith,
          (
            omega arith,
            (omega arith, (omega arith, (omega arith, (omega arith, (omega arith, tt))))),
          ),
        ),
        omega arith,
      )
      cover-IsCover refl
