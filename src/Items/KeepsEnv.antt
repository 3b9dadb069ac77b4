-- ===== src/Items/KeepsEnv.antt =====
-- Parsing an item does not change the environment.
use lib_zdtm_sync.Prelude.{
  ℕ, zero, suc, Option, List, [], ◌∷◌, ◌≡◌, true, false, arith, Bool, if◌then◌else◌, not, ◌==◌,
  Bool-cases, inl, inr, same_bytes,
}
use lib_zdtm_sync.Prelude.Int.{ℤ, negsuc, nonzero}
use lib_zdtm_sync.Run.{M, ok, pure}
use lib_zdtm_sync.Env.{State, FormatParam, bind-env}
use lib_zdtm_sync.Platform.{Platform}
use lib_zdtm_sync.Contents.{DataParam, TodoItem}
use lib_zdtm_sync.Items.Copy.{
  array, data_id_time, data_id_bit, data_id_barray, data_id_utf8, data_id_ulong, each_param,
}
use lib_zdtm_sync.Items.Todo.{set_todo, parse_todo_item_params}
use lib_zdtm_sync.Items.Calendar.{CalendarItem, set_calendar, parse_calendar_item_params}
use lib_zdtm_sync.Items.AddressFields.{Entry, text_entries}
use lib_zdtm_sync.Items.Address.{
  AddressItem, set_text, set_address_utf8, set_address_time, set_address_bit, set_address_barray,
  set_address_ulong, set_address, parse_address_item_params,
}

-- A step that puts one parameter into the item.
abbrev KeepsEnv :
    {W Item : Type 0} → (FormatParam → DataParam → Item → M (State W) (ℤ × Item)) → Type 0
KeepsEnv {W} {Item} step =
    (f : FormatParam) (x : DataParam) (i : Item) (s t : State W) (r : ℤ × Item)
    → step f x i s ≡ ok r t
    → t.env ≡ s.env

module _ {W Item : Type 0} where
  -- where a step has returned, the loop ends or goes on
  after_step-env :
      (rest : Item → M (State W) (ℤ × Item))
      → ((i : Item) (s t : State W) (r : ℤ × Item) → rest i s ≡ ok r t → t.env ≡ s.env)
      → (b : Bool) (a : ℤ × Item) (s t : State W) (r : ℤ × Item)
      → (elim b as (λ _. M (State W) (ℤ × Item)) [ true ↦ pure a | false ↦ rest a.1 ]) s ≡ ok r t
      → t.env ≡ s.env
  after_step-env rest k true a s t r e = ground arith
  after_step-env rest k false a s t r e = k a.1 s t r e

  if-env :
      (b : Bool) (m n : M (State W) (ℤ × Item))
      → ((s t : State W) (r : ℤ × Item) → m s ≡ ok r t → t.env ≡ s.env)
      → ((s t : State W) (r : ℤ × Item) → n s ≡ ok r t → t.env ≡ s.env)
      → (s t : State W) (r : ℤ × Item) → (if b then m else n) s ≡ ok r t
      → t.env ≡ s.env
  if-env true m n km kn = km
  if-env false m n km kn = kn

  each_param-env :
      (step : FormatParam → DataParam → Item → M (State W) (ℤ × Item))
      → KeepsEnv step
      → (n : ℕ) (fs : List FormatParam) (xs : List DataParam) (i : Item) (s t : State W)
        (r : ℤ × Item)
      → each_param step n fs xs i s ≡ ok r t
      → t.env ≡ s.env
  unfolding each_param
  each_param-env step k zero fs xs i s t r e = ground arith
  each_param-env step k (suc n) [] xs i s t r e = ground arith
  each_param-env step k (suc n) (f ∷ fs) [] i s t r e = ground arith
  each_param-env step k (suc n) (f ∷ fs) (x ∷ xs) i s t r e =
      bind-env _ _ (k f x i) (λ a. after_step-env _ (each_param-env step k n fs xs) (nonzero a.0) a)
        s t r e

module _ {W : Type 0} (p : Platform W) where
  set_address_utf8-env : (es : List Entry) → KeepsEnv (set_address_utf8 p es)
  unfolding set_address_utf8 set_text
  set_address_utf8-env [] f x i s t r e = ground arith
  set_address_utf8-env (y ∷ es) f x i s t r e = elim (Bool-cases (same_bytes f.abrev y.abrev)) [
    | inl g ↦ ground (arith, g)
    | inr g ↦ ground (arith, g, set_address_utf8-env es f x i s t r)
  ]

  set_address_time-env : KeepsEnv (set_address_time p)
  set_address_time-env f x i s t r e = ground arith

  set_address_bit-env : KeepsEnv (set_address_bit p)
  set_address_bit-env f x i s t r e = ground arith

  set_address_barray-env : KeepsEnv (set_address_barray p)
  unfolding set_text
  set_address_barray-env f x i s t r e = ground arith

  set_address_ulong-env : KeepsEnv (set_address_ulong p)
  set_address_ulong-env f x i s t r e = ground arith

  set_todo-env : KeepsEnv (set_todo p)
  unfolding set_todo
  set_todo-env f x i s t r e = ground arith

  pub parse_todo_item_params-env :
      (fs : Option (List FormatParam)) (n : ℕ) (xs : Option (List DataParam)) (k : ℕ) (i : TodoItem)
      (s t : State W) (r : ℤ × TodoItem)
      → parse_todo_item_params p fs n xs k i s ≡ ok r t
      → t.env ≡ s.env
  unfolding parse_todo_item_params
  parse_todo_item_params-env fs n xs k i =
      if-env (not (n == k)) (pure (negsuc 0, i)) _ (λ s t r e. ground arith)
        (each_param-env (set_todo p) set_todo-env n (array fs) (array xs) i)

  set_calendar-env : KeepsEnv (set_calendar p)
  unfolding set_calendar
  set_calendar-env f x i s t r e = ground arith

  pub parse_calendar_item_params-env :
      (fs : Option (List FormatParam)) (n : ℕ) (xs : Option (List DataParam)) (k : ℕ)
      (i : CalendarItem) (s t : State W) (r : ℤ × CalendarItem)
      → parse_calendar_item_params p fs n xs k i s ≡ ok r t
      → t.env ≡ s.env
  unfolding parse_calendar_item_params
  parse_calendar_item_params-env fs n xs k i =
      if-env (not (n == k)) (pure (negsuc 0, i)) _ (λ s t r e. ground arith)
        (each_param-env (set_calendar p) set_calendar-env n (array fs) (array xs) i)

  set_address-env : KeepsEnv (set_address p)
  unfolding set_address
  set_address-env f x i s t r e =
      if-env (f.type_id == data_id_time) _ _ (set_address_time-env f x i)
        (if-env (f.type_id == data_id_bit) _ _ (set_address_bit-env f x i) (
          if-env (f.type_id == data_id_barray) _ _ (set_address_barray-env f x i) (
            if-env (f.type_id == data_id_utf8) _ _ (set_address_utf8-env text_entries f x i) (
              if-env (f.type_id == data_id_ulong) _ _ (set_address_ulong-env f x i)
                (λ s t r e. ground arith)))))
        s t r e

  pub parse_address_item_params-env :
      (fs : Option (List FormatParam)) (n : ℕ) (xs : Option (List DataParam)) (k : ℕ)
      (i : AddressItem) (s t : State W) (r : ℤ × AddressItem)
      → parse_address_item_params p fs n xs k i s ≡ ok r t
      → t.env ≡ s.env
  unfolding parse_address_item_params
  parse_address_item_params-env fs n xs k i =
      if-env (not (n == k)) (pure (negsuc 0, i)) _ (λ s t r e. ground arith)
        (each_param-env (set_address p) set_address-env n (array fs) (array xs) i)
