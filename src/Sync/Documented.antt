-- ===== src/Sync/Documented.antt =====
-- The codes that src/zdtm_sync.h documents for the public functions, and those that they return.
use lib_zdtm_sync.Prelude.{ℕ, Bool, true, Option, List, ltb, leb, ◌==◌, ◌≡◌, ◌≢◌, refl, ap, arith}
use lib_zdtm_sync.Prelude.Int.{ℤ, pos, negsuc}
use lib_zdtm_sync.Run.{M, ok, pure, ◌>>=◌}
use lib_zdtm_sync.Env.{Env, State, FormatParam}
use lib_zdtm_sync.Env.Valid.{IsEnv}
use lib_zdtm_sync.Platform.{Platform}
use lib_zdtm_sync.Contents.{DataParam}
use lib_zdtm_sync.Message.{Msg}
use lib_zdtm_sync.Items.Todo.{parse_todo_item_params}
use lib_zdtm_sync.Items.Calendar.{parse_calendar_item_params}
use lib_zdtm_sync.Items.Address.{parse_address_item_params}
use lib_zdtm_sync.Proto.{Answer, reply, refused, await, ask}
use lib_zdtm_sync.Sync.{initialize, finalize, free_env, set_zaurus_ip, set_sync_type, set_passcode}
use lib_zdtm_sync.Sync.Initiate.{slow_sync_flag, check_cur_auth_state, requires_slow_sync}
use lib_zdtm_sync.Sync.Lists.{IdLists, obtain_sync_id_lists}
use lib_zdtm_sync.Sync.ItemCalls.{
  sync_type_todo, sync_type_calendar, sync_type_address, obtain_parsed, obtain_todo_item,
  obtain_calendar_item, obtain_address_item, delete_item,
}
use lib_zdtm_sync.Sync.Terminate.{terminate_sync}
use lib_zdtm_sync.Sync.Valid.Handshake.{need_sync_state-IsEnv}
use lib_zdtm_sync.Sync.Calls.{
  Call, zaurus_ip, sync_type, passcode, initiate, auth_state, slow_sync, id_lists, terminate,
  todo_item, calendar_item, address_item, delete, perform,
}

-- 0, or one of the failures -1 to -n.
abbrev pub fails_up_to : ℕ → ℤ → Bool
fails_up_to n (pos k) = k == 0
fails_up_to n (negsuc k) = ltb k n

-- No, yes, or one of the failures -1 to -n.
abbrev pub answers_up_to : ℕ → ℤ → Bool
answers_up_to n (pos k) = leb k 1
answers_up_to n (negsuc k) = ltb k n

-- The @retval lists.
unfoldable pub documented : Call → ℤ → Bool
documented (zaurus_ip ip) = fails_up_to 0
documented (sync_type type) = fails_up_to 0
documented (passcode code) = fails_up_to 1
documented initiate = fails_up_to 7
documented auth_state = answers_up_to 1
documented slow_sync = answers_up_to 2
documented id_lists = fails_up_to 4
documented (todo_item id item) = fails_up_to 3
documented (calendar_item id item) = fails_up_to 3
documented (address_item id item) = fails_up_to 3
documented (delete id) = fails_up_to 3
documented terminate = fails_up_to 5

-- The functions of the public interface.
pub data Function : Type 0 where
  begin finish : Function
  call : Call → Function

abbrev pub retvals : Function → ℤ → Bool
retvals begin = fails_up_to 2
retvals finish = fails_up_to 2
retvals (call c) = documented c

-- Only zdtm_initialize can do with an environment that is not well-formed.
abbrev pub IsReady : Function → Env → Type 0
IsReady begin env = Unit
IsReady _ env = IsEnv env

module _ {W : Type 0} (p : Platform W) where
  -- what `ask 0` may refuse with
  abbrev Refuses : Answer → Type 0
  Refuses (reply m) = Unit
  Refuses (refused r) = fails_up_to 3 r ≡ true

  await-Refuses :
      (mtype : List ℕ) (s t : State W) (a : Answer) → await p 0 mtype s ≡ ok a t → Refuses a
  unfolding await
  await-Refuses mtype s t a e = ground arith

  ask-Refuses :
      (m : Msg) (mtype : List ℕ) (s t : State W) (a : Answer)
      → ask p 0 m mtype s ≡ ok a t
      → Refuses a
  unfolding ask
  ask-Refuses m mtype s t a e = grind (arith, await-Refuses)

  set_zaurus_ip-documented :
      (ip : List ℕ) (s t : State W) (r : ℤ) → set_zaurus_ip p ip s ≡ ok r t → fails_up_to 0 r ≡ true
  unfolding set_zaurus_ip
  set_zaurus_ip-documented ip s t r e = ground arith

  check_cur_auth_state-documented :
      (s t : State W) (r : ℤ) → check_cur_auth_state p s ≡ ok r t → answers_up_to 1 r ≡ true
  unfolding check_cur_auth_state
  check_cur_auth_state-documented s t r e = ground arith

  delete_item-documented :
      (id : ℕ) (s t : State W) (r : ℤ) → delete_item p id s ≡ ok r t → fails_up_to 3 r ≡ true
  unfolding delete_item
  delete_item-documented id s t r e = grind (arith, ask-Refuses)

  terminate_sync-documented :
      (s t : State W) (r : ℤ) → terminate_sync p s ≡ ok r t → fails_up_to 5 r ≡ true
  unfolding terminate_sync
  terminate_sync-documented s t r e = ground arith

  obtain_sync_id_lists-documented :
      (s t : State W) (r : ℤ × Option IdLists)
      → obtain_sync_id_lists p s ≡ ok r t
      → fails_up_to 4 r.0 ≡ true
  unfolding obtain_sync_id_lists
  obtain_sync_id_lists-documented s t r e = grind (arith, ask-Refuses)

  obtain_parsed-documented :
      {Item : Type 0} (type : ℕ)
      (parse : Option (List FormatParam)
        → ℕ
        → Option (List DataParam)
        → ℕ
        → Item
        → M (State W) (ℤ × Item))
      (id : ℕ) (i : Item) (s t : State W) (r : ℤ × Item)
      → obtain_parsed p type parse id i s ≡ ok r t
      → fails_up_to 3 r.0 ≡ true
  unfolding obtain_parsed
  obtain_parsed-documented type parse id i s t r e = ground arith

  slow_sync_flag-documented : (env : Env) → IsEnv env → answers_up_to 2 (slow_sync_flag env) ≡ true
  unfolding IsEnv slow_sync_flag
  slow_sync_flag-documented env h = ground arith

  requires_slow_sync-documented :
      (s t : State W) (r : ℤ)
      → requires_slow_sync p s ≡ ok r t
      → IsEnv s.env
      → answers_up_to 2 r ≡ true
  unfolding requires_slow_sync
  requires_slow_sync-documented s t r e h =
      grind (arith, need_sync_state-IsEnv, slow_sync_flag-documented)

  -- the code of a function that also gives an item
  coded-documented :
      {A : Type 0} (n : ℕ) (m : M (State W) (ℤ × A))
      → ((s t : State W) (a : ℤ × A) → m s ≡ ok a t → fails_up_to n a.0 ≡ true)
      → (s t : State W) (r : ℤ) → (m >>= λ (r, _). pure r) s ≡ ok r t
      → fails_up_to n r ≡ true
  coded-documented n m k s t r e = grind (arith, k)

  perform-documented :
      (c : Call) (s t : State W) (r : ℤ)
      → c ≢ initiate
      → IsEnv s.env
      → perform p c s ≡ ok r t
      → documented c r ≡ true
  unfolding perform documented set_sync_type set_passcode obtain_todo_item obtain_calendar_item
      obtain_address_item
  perform-documented (zaurus_ip ip) s t r n h e = set_zaurus_ip-documented ip s t r e
  perform-documented (sync_type type) s t r n h e = grind arith
  perform-documented (passcode code) s t r n h e = grind arith
  perform-documented initiate s t r n h e = absurd (n refl)
  perform-documented auth_state s t r n h e = check_cur_auth_state-documented s t r e
  perform-documented slow_sync s t r n h e = requires_slow_sync-documented s t r e h
  perform-documented id_lists s t r n h e =
      coded-documented 4 (obtain_sync_id_lists p) obtain_sync_id_lists-documented s t r e
  perform-documented terminate s t r n h e = terminate_sync-documented s t r e
  perform-documented (todo_item id item) s t r n h e =
      coded-documented 3 (obtain_todo_item p id item)
        (obtain_parsed-documented sync_type_todo (parse_todo_item_params p) id item) s t r e
  perform-documented (calendar_item id item) s t r n h e =
      coded-documented 3 (obtain_calendar_item p id item)
        (obtain_parsed-documented sync_type_calendar (parse_calendar_item_params p) id item) s t r e
  perform-documented (address_item id item) s t r n h e =
      coded-documented 3 (obtain_address_item p id item)
        (obtain_parsed-documented sync_type_address (parse_address_item_params p) id item) s t r e
  perform-documented (delete id) s t r n h e = delete_item-documented id s t r e

  initialize-documented : (s t : State W) (r : ℤ) → initialize p s ≡ ok r t → fails_up_to 2 r ≡ true
  unfolding initialize
  initialize-documented s t r e = ground arith

  finalize-documented : (s t : State W) (r : ℤ) → finalize p s ≡ ok r t → fails_up_to 2 r ≡ true
  unfolding finalize free_env
  finalize-documented s t r e = ground arith

  unfoldable pub invoke : Function → M (State W) ℤ
  unfolding initialize finalize
  invoke begin = initialize p
  invoke finish = finalize p
  invoke (call c) = perform p c

  -- Every function of the public interface but zdtm_initiate_sync, with zdtm_initialize and
  -- zdtm_finalize, returns one of the codes that its documentation lists, where it returns. For all
  -- but zdtm_initialize the environment is well-formed before.
  pub invoke-documented :
      (f : Function) (s t : State W) (r : ℤ)
      → f ≢ call initiate
      → IsReady f s.env
      → invoke f s ≡ ok r t
      → retvals f r ≡ true
  unfolding invoke
  invoke-documented begin s t r n h e = initialize-documented s t r e
  invoke-documented finish s t r n h e = finalize-documented s t r e
  invoke-documented (call c) s t r n h e = perform-documented c s t r (λ same. n (ap call same)) h e
