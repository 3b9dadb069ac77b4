-- ===== src/Tests/Obtained/Calendar.antt =====
-- A calendar item on the simulated host.
use lib_zdtm_sync.Prelude.{◌≡◌, refl, none, some, List, [], ◌∷◌, map, replicate, arith}
use lib_zdtm_sync.Prelude.Int.{pos}
use lib_zdtm_sync.Run.{ok}
use lib_zdtm_sync.Env.{Env}
use lib_zdtm_sync.Items.Calendar.{CalendarItem}
use lib_zdtm_sync.Items.Columns.{format, stored, values}
use lib_zdtm_sync.Items.Calendar.Columns.{
  CalendarField, Column, start_time, repeat_period, alarm, category, description, location, sync_id,
  meaning,
}
use lib_zdtm_sync.Replies.Kinds.{adr}
use lib_zdtm_sync.Proto.Talk.{Connected, says}
use lib_zdtm_sync.Sync.ItemCalls.{obtain_calendar_item}
use lib_zdtm_sync.Sync.Obtained.Calendar.{obtain_calendar_item-says}
use lib_zdtm_sync.Tests.Host.{World}
use lib_zdtm_sync.Tests.Told.{clock, begin, cover, cover-IsCover, fresh_env, clock-Connected}

abbrev column : CalendarField → Column
column f = record { field = f; desc = b'?' ∷ [] }

-- Tea at home every 260 weeks, where the place comes twice.
abbrev tea : List Column
tea =
    column (sync_id 70000)
    ∷ column (start_time (replicate 5 1))
    ∷ column (category [])
    ∷ column (repeat_period 260)
    ∷ column (alarm 1)
    ∷ column (location (b'i' ∷ b'n' ∷ []))
    ∷ column (location (b'h' ∷ b'o' ∷ b'm' ∷ b'e' ∷ []))
    ∷ column (description (b't' ∷ b'e' ∷ b'a' ∷ []))
    ∷ []

abbrev no_item : CalendarItem
no_item = record {
  attribute = 0;
  creation_date = replicate 5 0;
  modification_date = replicate 5 0;
  sync_id = 0;
  category_len = 0;
  category = none;
  description_len = 0;
  description = none;
  location_len = 0;
  location = none;
  notes_len = 0;
  notes = none;
  start_time = replicate 5 0;
  end_time = replicate 5 0;
  schedule_type = 0;
  alarm = 0;
  alarm_setting = 0;
  alarm_time = 0;
  repeat_type = 0;
  repeat_period = 0;
  repeat_position = 0;
  repeat_date = 0;
  repeat_end_date_setting = 0;
  repeat_end_date = replicate 5 0;
  all_day_start_date = replicate 5 0;
  all_day_end_date = replicate 5 0;
  multiple_days_flag = 0;
}

abbrev formatted : Env
formatted = record fresh_env {
  sync_type = 1;
  num_params = 8;
  params = some (map (format meaning) tea);
}

formatted-Connected : Connected clock (λ w. w.incoming) formatted
formatted-Connected = record {
  exact = clock-Connected.exact;
  stream = clock-Connected.stream;
  undisturbed = clock-Connected.undisturbed;
  takes_all = clock-Connected.takes_all;
  rounds = omega arith;
  apart = λ b w. refl;
}

-- The texts take four blocks, of which the first place is lost, and the category is the column
-- without a value.
obtain_calendar_item-says_example :
    (w : World) × (obtain_calendar_item clock 70000 no_item
        (begin formatted (says cover (adr (0 ∷ 0 ∷ []) (values meaning tea)) []))
      ≡ ok (pos 0, stored meaning tea no_item) (record { env = formatted; sys = w; blocks = 5 }))
    × (w.incoming ≡ [])
obtain_calendar_item-says_example =
    obtain_calendar_item-says clock (λ w. w.incoming) 70000 no_item tea (0 ∷ 0 ∷ []) cover []
      (begin formatted (says cover (adr (0 ∷ 0 ∷ []) (values meaning tea)) [])) formatted-Connected
      refl refl refl refl (omega arith, (refl, (tt, (omega arith, (tt, (tt, (tt, (tt, tt))))))))
      (refl, refl, refl, refl, refl, refl, refl)
      (
        refl,
        omega arith,
        (
          omega arith,
          (
            omega arith,
            (
              omega arith,
              (omega arith, (omega arith, (omega arith, (omega arith, (omega arith, tt))))),
            ),
          ),
        ),
        omega arith,
      )
      cover-IsCover refl
