-- ===== src/Sync/Obtained.antt =====
-- An item of the device, from its columns to the struct of the caller (the body that
-- zdtm_obtain_todo_item, zdtm_obtain_calendar_item and zdtm_obtain_address_item of src/zdtm_sync.c
-- share).
pub mod Todo
pub mod Calendar
pub mod Address
use lib_zdtm_sync.Prelude.{
  ℕ, suc, ◌+◌, ◌-◌, ◌≡◌, refl, sym, ap, ◌∙◌, arith, true, false, not, ◌==◌, Option, some, List, [],
  ◌∷◌, ◌++◌, map, length,
}
use lib_zdtm_sync.Prelude.Int.{ℤ, pos}
use lib_zdtm_sync.Bytes.{Endian, little, big}
use lib_zdtm_sync.Run.{M, ok, ◌>>=◌, ◌>>◌}
use lib_zdtm_sync.Env.{State, FormatParam}
use lib_zdtm_sync.Platform.{Platform, NeverFull}
use lib_zdtm_sync.Platform.Blocks.{after_mallocs, after_mallocs-blocks}
use lib_zdtm_sync.Contents.{DataParam, TodoItem}
use lib_zdtm_sync.Requests.Kinds.{rdr}
use lib_zdtm_sync.Replies.Kinds.{adr, IsReply, IsReadable}
use lib_zdtm_sync.Replies.Adr.Params
use lib_zdtm_sync.Msgs.{clean_message}
use lib_zdtm_sync.Net.Recv.Whole.{after_mallocs-pending}
use lib_zdtm_sync.Proto.Talk.{Cover, IsCover, Connected, says, ask-says}
use lib_zdtm_sync.Proto.Item.{obtain_item}
use lib_zdtm_sync.Proto.Item.Blocks.{filled, free_params-param}
use lib_zdtm_sync.Items.Columns.{format, stored, all_rooms, All, values, length-map, parse-stored}
use lib_zdtm_sync.Sync.ItemCalls.{sync_type_todo, obtain_parsed, obtain_todo_item}

-- The columns without a value.
abbrev pub emptied : List (List ℕ) → ℕ
emptied [] = 0
emptied ([] ∷ ds) = suc (emptied ds)
emptied ((x ∷ d) ∷ ds) = emptied ds

filled-emptied : (ds : List (List ℕ)) → filled ds + emptied ds ≡ length ds
filled-emptied [] = refl
filled-emptied ([] ∷ ds) = let rest = filled-emptied ds in omega arith
filled-emptied ((x ∷ d) ∷ ds) = let rest = filled-emptied ds in omega arith

module _ {W : Type 0} (p : Platform W) where
  -- The parameters of an item.
  obtain_item-says :
      (pending : W → List ℕ) (id : ℕ) (uk : List ℕ) (ds : List (List ℕ)) (c : Cover) (rest : List ℕ)
      (s : State W)
      → Connected p pending s.env
      → p.order ≡ little
      → IsReply (adr uk ds)
      → IsCover c
      → pending s.sys ≡ says c (adr uk ds) rest
      → (w : W) × (obtain_item p id s
          ≡ ok
              (pos 0, some (some (map Params.param ds), length ds))
              (record s { sys = w; blocks = s.blocks + 1 + length ds }))
        × (pending w ≡ rest)
  unfolding obtain_item clean_message
  obtain_item-says pending id uk ds c rest s k order h i e =
      let q = rdr s.env.sync_type 1 id in
      let (w, got, left) =
        ask-says p pending 0 q (adr uk ds) c rest s k tt (rw order tt) h (rw order tt) i e in
      (
        w,
        rw (got, obtain_item, ◌>>=◌)
            (ap
              (λ n.
                ok (pos 0, some (some (map Params.param ds), length ds))
                  (record s { sys = w; blocks = n }))
              (omega (arith, length-map length ds))),
        left,
      )

  -- The item, where the parse of its parameters takes blocks of the sizes given.
  pub obtain_parsed-says :
      {Item : Type 0} (pending : W → List ℕ) (type : ℕ)
      (parse : Option (List FormatParam)
        → ℕ
        → Option (List DataParam)
        → ℕ
        → Item
        → M (State W) (ℤ × Item))
      (id : ℕ) (item out : Item) (sizes : List ℕ) (uk : List ℕ) (ds : List (List ℕ)) (c : Cover)
      (rest : List ℕ) (s : State W)
      → Connected p pending s.env
      → p.order ≡ little
      → (s.env.sync_type == type) ≡ true
      → IsReply (adr uk ds)
      → IsCover c
      → ((t : State W)
          → parse s.env.params s.env.num_params (some (map Params.param ds)) (length ds) item t
            ≡ ok (pos 0, out) (after_mallocs p sizes t))
      → pending s.sys ≡ says c (adr uk ds) rest
      → (w : W) × (obtain_parsed p type parse id item s
          ≡ ok (pos 0, out) (record s { sys = w; blocks = s.blocks + length sizes + emptied ds }))
        × (pending w ≡ rest)
  unfolding obtain_parsed
  obtain_parsed-says pending type parse id item out sizes uk ds c rest s k order same h i parsed e =
      let (v, got, left) = obtain_item-says pending id uk ds c rest s k order h i e in
      let t : State W = record s { sys = v; blocks = s.blocks + 1 + length ds } in
      let t' : State W = after_mallocs p sizes t in
      let freed = free_params-param ds t' in
      (
        t'.sys,
        rw (same, got, parsed t, freed, obtain_parsed, ◌>>=◌)
            (ap (λ (u : State W). ok (pos 0, out) (record u { blocks = u.blocks - filled ds - 1 }))
                (after_mallocs-blocks p sizes t)
              ∙ ap (λ n. ok (pos 0, out) (record s { sys = t'.sys; blocks = n }))
                  (omega (arith, filled-emptied ds))),
        after_mallocs-pending p pending sizes t k.undisturbed ∙ left,
      )
