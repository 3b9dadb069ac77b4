-- ===== src/Tests/Obtained/Address.antt =====
-- An address on the simulated host.
use lib_zdtm_sync.Prelude.{◌≡◌, refl, none, some, List, [], ◌∷◌, map, replicate, arith}
use lib_zdtm_sync.Prelude.Int.{pos}
use lib_zdtm_sync.Run.{ok}
use lib_zdtm_sync.Env.{Env}
use lib_zdtm_sync.Items.Address.{AddressItem}
use lib_zdtm_sync.Items.Columns.{format, stored, values}
use lib_zdtm_sync.Items.Address.Columns.{
  AddressColumn, Column, modification_date, sync_id, text, unread, meaning,
}
use lib_zdtm_sync.Items.AddressFields.{category, full_name, default_email, group}
use lib_zdtm_sync.Replies.Kinds.{adr}
use lib_zdtm_sync.Proto.Talk.{Connected, says}
use lib_zdtm_sync.Sync.ItemCalls.{obtain_address_item}
use lib_zdtm_sync.Sync.Obtained.Address.{obtain_address_item-says}
use lib_zdtm_sync.Tests.Host.{World}
use lib_zdtm_sync.Tests.Told.{clock, begin, cover, cover-IsCover, fresh_env, clock-Connected}

abbrev column : AddressColumn → Column
column f = record { field = f; desc = b'?' ∷ [] }

-- A colleague without a group.
abbrev colleague : List Column
colleague =
    column (modification_date (replicate 5 1))
    ∷ column (sync_id 70000)
    ∷ column (text category (5 ∷ []))
    ∷ column (text full_name (b'A' ∷ b'd' ∷ b'a' ∷ []))
    ∷ column (text default_email (b'a' ∷ b'@' ∷ b'b' ∷ []))
    ∷ column (text group [])
    ∷ column (unread 0x63 (replicate 4 b'Z') (1 ∷ 2 ∷ []))
    ∷ []

abbrev no_item : AddressItem
no_item = record {
  attribute = 0;
  creation_date = replicate 5 0;
  modification_date = replicate 5 0;
  sync_id = 0;
  texts = λ f. record { len = 0; bytes = none };
}

abbrev formatted : Env
formatted = record fresh_env {
  sync_type = 7;
  num_params = 7;
  params = some (map (format meaning) colleague);
}

formatted-Connected : Connected clock (λ w. w.incoming) formatted
formatted-Connected = record {
  exact = clock-Connected.exact;
  stream = clock-Connected.stream;
  undisturbed = clock-Connected.undisturbed;
  takes_all = clock-Connected.takes_all;
  rounds = omega arith;
  apart = λ b w. refl;
}

-- The texts take four blocks, and the group is the column without a value.
obtain_address_item-says_example :
    (w : World) × (obtain_address_item clock 70000 no_item
        (begin formatted (says cover (adr (0 ∷ 0 ∷ []) (values meaning colleague)) []))
      ≡ ok
          (pos 0, stored meaning colleague no_item)
          (record { env = formatted; sys = w; blocks = 5 }))
    × (w.incoming ≡ [])
obtain_address_item-says_example =
    obtain_address_item-says clock (λ w. w.incoming) 70000 no_item colleague (0 ∷ 0 ∷ []) cover []
      (begin formatted (says cover (adr (0 ∷ 0 ∷ []) (values meaning colleague)) []))
      formatted-Connected refl refl refl refl
      (refl, (omega arith, (tt, (tt, (tt, (tt, ((refl, refl, refl, refl, refl), tt)))))))
      (refl, refl)
      (
        refl,
        omega arith,
        (
          omega arith,
          (
            omega arith,
            (omega arith, (omega arith, (omega arith, (omega arith, (omega arith, tt))))),
          ),
        ),
        omega arith,
      )
      cover-IsCover refl
