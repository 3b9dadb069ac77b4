-- ===== src/Items/Columns.antt =====
-- The loop over the parameters of an item where each parameter has its effect: one column of the
-- device's format and one of its data after the other.
pub mod Numbers
use lib_zdtm_sync.Prelude.{
  ℕ, suc, ◌≡◌, refl, sym, ap, ◌∙◌, true, not, ◌==◌, if◌then◌else◌, arith, Option, some, List, [],
  ◌∷◌, ◌++◌, map, length,
}
use lib_zdtm_sync.Prelude.Int.{ℤ, pos, negsuc}
use lib_zdtm_sync.Run.{M, ok, pure, ◌>>=◌}
use lib_zdtm_sync.Env.{State, FormatParam}
use lib_zdtm_sync.Platform.{Platform}
use lib_zdtm_sync.Platform.Blocks.{after_malloc, after_mallocs}
use lib_zdtm_sync.Contents.{DataParam}
use lib_zdtm_sync.Replies.Adi.Texts
use lib_zdtm_sync.Replies.Adi.Texts.{Text}
use lib_zdtm_sync.Replies.Adr.Params
use lib_zdtm_sync.Items.Copy.{array, each_param}

-- What columns of type C mean for items of a type: how the device describes each and the bytes of its
-- value, what it stores, and the sizes of the blocks that it takes.
pub record Meaning (C Item : Type 0) : Type 0 where
  pub text_of : C → Text
  pub bytes_of : C → List ℕ
  pub store : C → Item → Item
  pub rooms : C → List ℕ

pub length-map : {A B : Type 0} (f : A → B) (xs : List A) → length (map f xs) ≡ length xs
length-map f [] = refl
length-map f (x ∷ xs) = ap suc (length-map f xs)

pub map-map :
    {A B C : Type 0} (f : A → B) (g : B → C) (xs : List A)
    → map g (map f xs) ≡ map (λ x. g (f x)) xs
map-map f g [] = refl
map-map f g (x ∷ xs) = ap (λ ys. g (f x) ∷ ys) (map-map f g xs)

equal_refl : (n : ℕ) → (n == n) ≡ true
equal_refl n = ground arith

module _ {C Item : Type 0} (m : Meaning C Item) where
  -- The entry of the parameter format, and the parameter of an item.
  abbrev pub format : C → FormatParam
  format c = Texts.param (m.text_of c)

  abbrev pub data_of : C → DataParam
  data_of c = Params.param (m.bytes_of c)

  -- All columns, in their order.
  abbrev pub stored : List C → Item → Item
  stored [] item = item
  stored (c ∷ cs) item = stored cs (m.store c item)

  abbrev pub all_rooms : List C → List ℕ
  all_rooms [] = []
  all_rooms (c ∷ cs) = m.rooms c ++ all_rooms cs

  abbrev pub All : (C → Type 0) → List C → Type 0
  All P [] = Unit
  All P (c ∷ cs) = P c × All P cs

  -- The values of the columns.
  abbrev pub values : List C → List (List ℕ)
  values cs = map m.bytes_of cs

  module _ {W : Type 0} (p : Platform W) where
    after_mallocs-append :
        (ns ks : List ℕ) (s : State W)
        → after_mallocs p (ns ++ ks) s ≡ after_mallocs p ks (after_mallocs p ns s)
    after_mallocs-append [] ks s = refl
    after_mallocs-append (n ∷ ns) ks s = after_mallocs-append ns ks (after_malloc p n s)

    -- What a step promises of a column that is well-formed, for a well-formed item.
    pub record Stores (step : FormatParam → DataParam → Item → M (State W) (ℤ × Item))
        (IsColumn : C → Type 0) (IsItem : Item → Type 0) : Type 0 where
      pub runs :
          (c : C) (item : Item) (s : State W)
          → IsColumn c
          → IsItem item
          → step (format c) (data_of c) item s
            ≡ ok (pos 0, m.store c item) (after_mallocs p (m.rooms c) s)
      pub keeps : (c : C) (item : Item) → IsColumn c → IsItem item → IsItem (m.store c item)

    pub each_param-stored :
        (step : FormatParam → DataParam → Item → M (State W) (ℤ × Item)) (IsColumn : C → Type 0)
        (IsItem : Item → Type 0) (cs : List C) (item : Item) (s : State W)
        → Stores step IsColumn IsItem
        → All IsColumn cs
        → IsItem item
        → each_param step (length cs) (map format cs) (map data_of cs) item s
          ≡ ok (pos 0, stored cs item) (after_mallocs p (all_rooms cs) s)
    unfolding each_param
    each_param-stored step IsColumn IsItem [] item s stores h i = refl
    each_param-stored step IsColumn IsItem (c ∷ cs) item s stores (h, hs) i =
        rw
          (
            stores.runs c item s h i,
            each_param-stored step IsColumn IsItem cs (m.store c item)
                (after_mallocs p (m.rooms c) s) stores hs (stores.keeps c item h i),
            each_param,
            ◌>>=◌,
          )
          (ap (ok (pos 0, stored (c ∷ cs) item))
            (sym (after_mallocs-append (m.rooms c) (all_rooms cs) s)))

    -- The whole parse, with the count of the format compared first.
    pub parse-stored :
        (parse : Option (List FormatParam)
          → ℕ
          → Option (List DataParam)
          → ℕ
          → Item
          → M (State W) (ℤ × Item))
        (step : FormatParam → DataParam → Item → M (State W) (ℤ × Item)) (IsColumn : C → Type 0)
        (IsItem : Item → Type 0) (formats : Option (List FormatParam)) (num : ℕ) (cs : List C)
        (item : Item) (s : State W)
        → ((f : Option (List FormatParam)) (n : ℕ) (d : Option (List DataParam)) (k : ℕ) (i : Item)
            → parse f n d k i ≡ (
                if not (n == k)
                then pure (negsuc 0, i)
                else each_param step n (array f) (array d) i))
        → Stores step IsColumn IsItem
        → All IsColumn cs
        → IsItem item
        → formats ≡ some (map format cs)
        → num ≡ length cs
        → parse formats num (some (map Params.param (values cs))) (length (values cs)) item s
          ≡ ok (pos 0, stored cs item) (after_mallocs p (all_rooms cs) s)
    parse-stored parse step IsColumn IsItem formats num cs item s loops stores h i f n =
        rw
          (
            f,
            n,
            loops (some (map format cs)) (length cs) (some (map Params.param (values cs)))
                (length (values cs)) item,
            length-map m.bytes_of cs,
            map-map m.bytes_of Params.param cs,
            equal_refl (length cs),
          )
          (each_param-stored step IsColumn IsItem cs item s stores h i)
