-- ===== src/Sync/Calls.antt =====
-- A use of the library: calls of the public interface (src/zdtm_sync.h) in any order, whatever they
-- return. zdtm_initialize comes before them and zdtm_finalize behind them.
use lib_zdtm_sync.Prelude.{ℕ, List, ◌≡◌}
use lib_zdtm_sync.Prelude.Int.{ℤ, pos}
use lib_zdtm_sync.Run.{M, ok, pure, ◌>>=◌}
use lib_zdtm_sync.Env.{State}
use lib_zdtm_sync.Platform.{Platform}
use lib_zdtm_sync.Contents.{TodoItem}
use lib_zdtm_sync.Items.Calendar.{CalendarItem}
use lib_zdtm_sync.Items.Address.{AddressItem}
use lib_zdtm_sync.Sync.{initialize, set_zaurus_ip, set_sync_type, set_passcode}
use lib_zdtm_sync.Sync.Initiate.{initiate_sync, check_cur_auth_state, requires_slow_sync}
use lib_zdtm_sync.Sync.Lists.{obtain_sync_id_lists}
use lib_zdtm_sync.Sync.ItemCalls.{
  obtain_todo_item, obtain_calendar_item, obtain_address_item, delete_item,
}
use lib_zdtm_sync.Sync.Terminate.{terminate_sync}

-- A call with its arguments.
pub data Call : Type 0 where
  zaurus_ip : List ℕ → Call
  sync_type : ℕ → Call
  passcode : List ℕ → Call
  initiate auth_state slow_sync id_lists terminate : Call
  todo_item : ℕ → TodoItem → Call
  calendar_item : ℕ → CalendarItem → Call
  address_item : ℕ → AddressItem → Call
  delete : ℕ → Call

module _ {W : Type 0} (p : Platform W) where
  -- What it does, with the code that it returns.
  unfoldable pub perform : Call → M (State W) ℤ
  perform (zaurus_ip ip) = set_zaurus_ip p ip
  perform (sync_type type) = set_sync_type p type
  perform (passcode code) = set_passcode p code
  perform initiate = initiate_sync p
  perform auth_state = check_cur_auth_state p
  perform slow_sync = requires_slow_sync p
  perform id_lists = do (r, _) ← obtain_sync_id_lists p; pure r
  perform terminate = terminate_sync p
  perform (todo_item id item) = do (r, _) ← obtain_todo_item p id item; pure r
  perform (calendar_item id item) = do (r, _) ← obtain_calendar_item p id item; pure r
  perform (address_item id item) = do (r, _) ← obtain_address_item p id item; pure r
  perform (delete id) = delete_item p id

  -- The states that a program gets to that has initialized the library.
  pub data Reached (s : State W) : State W → Type 0 where
    started : {t : State W} → initialize p s ≡ ok (pos 0) t → Reached s t
    called : {t u : State W} (c : Call) (r : ℤ) → Reached s t → perform c t ≡ ok r u → Reached s u
