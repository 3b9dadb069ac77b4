-- ===== src/Env/Valid.antt =====
-- The well-formed environments: the sizes of the arrays of zdtm_lib_env (src/zdtm_types.h), the
-- values that its flags and its synchronization type take, and the parameter format.
use lib_zdtm_sync.Prelude.{ℕ, ◌≤◌, ◌≡◌, Bool, true, ◌||◌, ◌==◌, Option, none, some, List, length}
use lib_zdtm_sync.Env.{Env, FormatParam}

-- No type, or one of the three that a device knows.
abbrev pub is_sync_type : ℕ → Bool
is_sync_type type = (type == 0x00) || ((type == 0x06) || ((type == 0x01) || (type == 0x07)))

-- The number of parameters belongs to the array.
unfoldable pub IsFormat : ℕ → Option (List FormatParam) → Type 0
IsFormat num none = num ≡ 0
IsFormat num (some params) = length params ≡ num

abbrev pub HasArrays : Env → Type 0
HasArrays env = (length env.zaurus_ip ≡ 16) × ((length env.model ≡ 256) × (length env.language ≡ 2))

abbrev pub HasFlags : Env → Type 0
HasFlags env =
    (env.retreived_device_info ≤ 1)
    × ((env.retrieved_sync_state ≤ 1)
        × ((env.todo_slow_sync_required ≤ 1)
            × ((env.calendar_slow_sync_required ≤ 1) × (env.address_book_slow_sync_required ≤ 1))))

unfoldable pub IsEnv : Env → Type 0
IsEnv env =
    HasArrays env
    × (HasFlags env × ((is_sync_type env.sync_type ≡ true) × IsFormat env.num_params env.params))
