-- ===== src/Sync/Flags.antt =====
-- Which synchronizations are slow: the flags of the AMG message, and the flags after a reset.
use lib_zdtm_sync.Prelude.{ℕ, ◌≡◌, refl, if◌then◌else◌, ◌==◌}
use Prim.Native.Nat.{bit_and}
use lib_zdtm_sync.Prelude.Int.{pos}
use lib_zdtm_sync.Env.{Env}
use lib_zdtm_sync.Proto.Session.{set_slow_sync, reset_slow_sync}
use lib_zdtm_sync.Sync.{sync_type_of}
use lib_zdtm_sync.Sync.Initiate.{slow_sync_flag}

-- What is synchronized, and the number that stands for it in zdtm_set_sync_type.
pub data Kind : Type 0 where
  todo calendar address_book : Kind

abbrev pub number_of : Kind → ℕ
number_of todo = 0
number_of calendar = 1
number_of address_book = 2

-- The bit of the AMG message that says that the device needs no slow synchronization.
abbrev pub bit_of : Kind → ℕ
bit_of todo = 0x01
bit_of calendar = 0x02
bit_of address_book = 0x04

-- The environment as it is set to synchronize a kind, before the state of the device is known.
abbrev pub set_to : Kind → Env → Env
set_to k env = record env {
  sync_type = sync_type_of (number_of k);
  todo_slow_sync_required = 0;
  calendar_slow_sync_required = 0;
  address_book_slow_sync_required = 0;
}

-- For each kind, once the flags of an AMG message are in, a slow synchronization is required exactly
-- where the bit of that kind is clear.
pub slow_sync_flag-set_slow_sync :
    (k : Kind) (flags : ℕ) (env : Env)
    → slow_sync_flag (set_slow_sync flags (set_to k env))
      ≡ pos (if bit_and flags (bit_of k) == 0 then 1 else 0)
unfolding slow_sync_flag set_slow_sync
slow_sync_flag-set_slow_sync todo flags env = refl
slow_sync_flag-set_slow_sync calendar flags env = refl
slow_sync_flag-set_slow_sync address_book flags env = refl

-- After a reset of the synchronization state, the flag that the library reads is 1 for a calendar and
-- for an address book, but for todo items it stays as it was.
pub slow_sync_flag-reset_slow_sync :
    (k : Kind) (env : Env)
    → slow_sync_flag (reset_slow_sync (record env { sync_type = sync_type_of (number_of k) }))
      ≡ pos (if number_of k == 0 then env.todo_slow_sync_required else 1)
unfolding slow_sync_flag reset_slow_sync
slow_sync_flag-reset_slow_sync todo env = refl
slow_sync_flag-reset_slow_sync calendar env = refl
slow_sync_flag-reset_slow_sync address_book env = refl
