-- ===== src/Sync/Valid/Items.antt =====
-- The calls for items and the end of a synchronization do not change the environment.
use lib_zdtm_sync.Prelude.{ℕ, zero, suc, Option, none, some, List, [], ◌∷◌, ◌≡◌, arith}
use lib_zdtm_sync.Prelude.Int.{ℤ}
use lib_zdtm_sync.Run.{M, ok}
use lib_zdtm_sync.Env.{State, FormatParam}
use lib_zdtm_sync.Platform.{Platform}
use lib_zdtm_sync.Contents.{Asy, DataParam, TodoItem}
use lib_zdtm_sync.Msgs.KeepsEnv.{clean_message-env}
use lib_zdtm_sync.Net.KeepsEnv.{
  send_message-env, recv_message-env, wrapped_send_message-env, wrapped_recv_message-env,
}
use lib_zdtm_sync.Proto.KeepsEnv.{ask-env, obtain_item-env}
use lib_zdtm_sync.Proto.Item.{free_each, free_params}
use lib_zdtm_sync.Proto.Valid.{disconnect-env}
use lib_zdtm_sync.Items.Todo.{parse_todo_item_params}
use lib_zdtm_sync.Items.Calendar.{CalendarItem, parse_calendar_item_params}
use lib_zdtm_sync.Items.Address.{AddressItem, parse_address_item_params}
use lib_zdtm_sync.Items.KeepsEnv.{
  parse_todo_item_params-env, parse_calendar_item_params-env, parse_address_item_params-env,
}
use lib_zdtm_sync.Sync.Lists.{IdLists, copy_lists, obtain_sync_id_lists}
use lib_zdtm_sync.Sync.ItemCalls.{
  sync_type_todo, sync_type_calendar, sync_type_address, obtain_parsed, obtain_todo_item,
  obtain_calendar_item, obtain_address_item, delete_item,
}
use lib_zdtm_sync.Sync.Terminate.{terminate_sync}

module _ {W : Type 0} (p : Platform W) where
  pub delete_item-env :
      (id : ℕ) (s t : State W) (r : ℤ) → delete_item p id s ≡ ok r t → t.env ≡ s.env
  unfolding delete_item
  delete_item-env id s t r e = grind (arith, ask-env, clean_message-env)

  pub terminate_sync-env : (s t : State W) (r : ℤ) → terminate_sync p s ≡ ok r t → t.env ≡ s.env
  unfolding terminate_sync
  terminate_sync-env s t r e = grind (
    arith, wrapped_send_message-env, wrapped_recv_message-env, clean_message-env, recv_message-env,
    send_message-env, disconnect-env,
  )

  free_each-env :
      (n : ℕ) (xs : List DataParam) (s t : State W) (r : Unit {0})
      → free_each n xs s ≡ ok r t
      → t.env ≡ s.env
  unfolding free_each
  free_each-env zero xs s t r e = ground arith
  free_each-env (suc n) [] s t r e = ground arith
  free_each-env (suc n) (x ∷ xs) s t r e = grind (arith, free_each-env n xs)

  free_params-env :
      (xs : Option (List DataParam)) (n : ℕ) (s t : State W) (r : ℤ)
      → free_params xs n s ≡ ok r t
      → t.env ≡ s.env
  unfolding free_params
  free_params-env none n s t r e = ground arith
  free_params-env (some xs) n s t r e = grind (arith, free_each-env)

  obtain_parsed-env :
      {Item : Type 0} (type : ℕ)
      (parse : Option (List FormatParam)
        → ℕ
        → Option (List DataParam)
        → ℕ
        → Item
        → M (State W) (ℤ × Item))
      → ((fs : Option (List FormatParam)) (n : ℕ) (xs : Option (List DataParam)) (k : ℕ) (i : Item)
            (s t : State W) (r : ℤ × Item)
          → parse fs n xs k i s ≡ ok r t
          → t.env ≡ s.env)
      → (id : ℕ) (i : Item) (s t : State W) (r : ℤ × Item)
      → obtain_parsed p type parse id i s ≡ ok r t
      → t.env ≡ s.env
  unfolding obtain_parsed
  obtain_parsed-env type parse k id i s t r e = grind (arith, k, obtain_item-env, free_params-env)

  copy_lists-env :
      (asy : Asy) (s t : State W) (r : IdLists) → copy_lists p asy s ≡ ok r t → t.env ≡ s.env
  unfolding copy_lists
  copy_lists-env asy s t r e = ground arith

  pub obtain_sync_id_lists-env :
      (s t : State W) (r : ℤ × Option IdLists) → obtain_sync_id_lists p s ≡ ok r t → t.env ≡ s.env
  unfolding obtain_sync_id_lists
  obtain_sync_id_lists-env s t r e = grind (arith, ask-env, clean_message-env, copy_lists-env)

  pub obtain_todo_item-env :
      (id : ℕ) (i : TodoItem) (s t : State W) (r : ℤ × TodoItem)
      → obtain_todo_item p id i s ≡ ok r t
      → t.env ≡ s.env
  unfolding obtain_todo_item
  obtain_todo_item-env =
      obtain_parsed-env sync_type_todo (parse_todo_item_params p) (parse_todo_item_params-env p)

  pub obtain_calendar_item-env :
      (id : ℕ) (i : CalendarItem) (s t : State W) (r : ℤ × CalendarItem)
      → obtain_calendar_item p id i s ≡ ok r t
      → t.env ≡ s.env
  unfolding obtain_calendar_item
  obtain_calendar_item-env =
      obtain_parsed-env sync_type_calendar (parse_calendar_item_params p)
        (parse_calendar_item_params-env p)

  pub obtain_address_item-env :
      (id : ℕ) (i : AddressItem) (s t : State W) (r : ℤ × AddressItem)
      → obtain_address_item p id i s ≡ ok r t
      → t.env ≡ s.env
  unfolding obtain_address_item
  obtain_address_item-env =
      obtain_parsed-env sync_type_address (parse_address_item_params p)
        (parse_address_item_params-env p)
