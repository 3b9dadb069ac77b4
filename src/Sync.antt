-- ===== src/Sync.antt =====
-- The public interface (src/zdtm_sync.c): the settings of an environment, and its end. The children
-- have the handshake, the lists of sync ids and the items, and the closing of a synchronization.
pub mod Initiate
pub mod Flags
pub mod Guards
pub mod Lists
pub mod ItemCalls
pub mod Terminate
pub mod Ending
pub mod Conversation
pub mod Told
pub mod Obtained
pub mod Steps
pub mod Handshake
pub mod Greeting
pub mod Valid
pub mod Calls
pub mod Session
pub mod Documented
pub mod Once
pub mod Finalize
use lib_zdtm_sync.Prelude.{
  ℕ, zero, suc, ◌+◌, Option, none, some, Bool, List, [], ◌∷◌, ◌++◌, if◌then◌else◌, ◌==◌, length,
  replicate,
}
use lib_zdtm_sync.Prelude.Int.{ℤ, pos, negsuc, nonzero}
use lib_zdtm_sync.Run.{
  M, Run, ok, fault, spin, pure, undefined, defined, ◌>>=◌, ◌>>◌, return_if, split,
}
use lib_zdtm_sync.Env.{Env, State, FormatParam, get_env, update_env, free}
use lib_zdtm_sync.Platform.{Platform, allocate}
use lib_zdtm_sync.Requests.{read}
use lib_zdtm_sync.Log.{open_log, close_log}
use lib_zdtm_sync.Net.{listen_for_zaurus, stop_listening}

-- IP_STR_SIZE
abbrev pub ip_str_size : ℕ
ip_str_size = 16

-- What zdtm_initialize sets between the opening of the log and that of the socket.
unfoldable pub initial : Env → Env
initial env = record env {
  zaurus_ip = replicate ip_str_size 0;
  sync_type = 0x00;
  retreived_device_info = 0;
  retrieved_sync_state = 0;
  todo_slow_sync_required = 0;
  calendar_slow_sync_required = 0;
  address_book_slow_sync_required = 0;
  num_params = 0;
  params = none;
  passcode = none;
}

-- The switch of zdtm_set_sync_type.
abbrev pub sync_type_of : ℕ → ℕ
sync_type_of type =
    if type == 0 then 0x06 else if type == 1 then 0x01 else if type == 2 then 0x07 else 0x00

module _ {W : Type 0} (p : Platform W) where
  unfoldable pub initialize : M (State W) ℤ
  unfolding initial
  initialize = do
    r ← open_log p
    return_if (nonzero r) (pure (negsuc 0))
    _ ← update_env initial
    r ← listen_for_zaurus p
    return_if (nonzero r) (pure (negsuc 1))
    pure (pos 0)

  -- Of the memory that starts with the caller's text, IP_STR_SIZE bytes are copied.
  unfoldable pub set_zaurus_ip : List ℕ → M (State W) ℤ
  set_zaurus_ip ip_addr = do
    ip ← defined (read ip_str_size ip_addr)
    _ ← update_env (λ env. record env { zaurus_ip = ip })
    pure (pos 0)

  unfoldable pub set_sync_type : ℕ → M (State W) ℤ
  set_sync_type type = do
    _ ← update_env (λ env. record env { sync_type = sync_type_of type })
    pure (pos 0)

  -- The passcode without its NUL; a copy that was set before is not freed.
  unfoldable pub set_passcode : List ℕ → M (State W) ℤ
  set_passcode passcode = do
    block ← allocate p (length passcode + 1)
    elim block [
      | none ↦ do _ ← update_env (λ env. record env { passcode = none }); pure (negsuc 0)
      | some _ ↦ do _ ← update_env (λ env. record env { passcode = some passcode }); pure (pos 0)
    ]

  -- The loop over the parameter format.
  unfoldable pub free_format : ℕ → List FormatParam → M (State W) (Unit {0})
  free_format zero params = pure tt
  free_format (suc n) [] = undefined
  free_format (suc n) (x ∷ xs) = do _ ← free x.desc; free_format n xs

  -- What the environment points to.
  unfoldable pub free_env : M (State W) ℤ
  free_env = do
    env ← get_env
    _ ← (elim env.params [
      | none ↦ pure tt
      | some params ↦ do _ ← free_format env.num_params params; free (some params)
    ])
    _ ← free env.passcode
    pure (pos 0)

  unfoldable pub finalize : M (State W) ℤ
  finalize = do
    r ← stop_listening p
    return_if (nonzero r) (pure (negsuc 1))
    r ← close_log p
    return_if (nonzero r) (pure (negsuc 0))
    free_env
