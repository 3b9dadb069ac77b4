-- ===== src/Proto/Item/Blocks.antt =====
-- What _zdtm_free_params gives back of the blocks that the parse of an ADR message allocated.
use lib_zdtm_sync.Prelude.{
  ℕ, suc, false, ◌-◌, ◌≡◌, refl, ap, ap, ◌∙◌, some, List, [], ◌∷◌, map, length, arith, ◌==◌,
}
use lib_zdtm_sync.Prelude.Int.{pos}
use lib_zdtm_sync.Run.{ok, ◌>>=◌}
use lib_zdtm_sync.Env.{State}
use lib_zdtm_sync.Proto.Item.{free_each, free_params}
use lib_zdtm_sync.Replies.Adr.Params.{param}

-- The parameters that have data.
abbrev pub filled : List (List ℕ) → ℕ
filled [] = 0
filled ([] ∷ ds) = filled ds
filled ((x ∷ d) ∷ ds) = suc (filled ds)

suc_not_zero : (n : ℕ) → (suc n == 0) ≡ false
suc_not_zero n = ground arith

module _ {W : Type 0} where
  free_each-param :
      (ds : List (List ℕ)) (s : State W)
      → free_each (length ds) (map param ds) s ≡ ok tt (record s { blocks = s.blocks - filled ds })
  unfolding free_each
  free_each-param [] s = ap (λ b. ok tt (record s { blocks = b })) (omega arith)
  free_each-param ([] ∷ ds) s = free_each-param ds s
  free_each-param ((x ∷ d) ∷ ds) s =
      let some_data : (suc (length d) == 0) ≡ false = suc_not_zero (length d) in
      rw (some_data, free_each, ◌>>=◌)
        (free_each-param ds (record s { blocks = s.blocks - 1 })
          ∙ ap (λ b. ok tt (record s { blocks = b })) (omega arith))

  -- For the parameters that an ADR message brought, free_params returns 0 and frees one block for each
  -- parameter that has data and one for the array. The block that malloc gave for a parameter of
  -- length 0 stays allocated.
  pub free_params-param :
      (ds : List (List ℕ)) (s : State W)
      → free_params (some (map param ds)) (length ds) s
        ≡ ok (pos 0) (record s { blocks = s.blocks - filled ds - 1 })
  unfolding free_params
  free_params-param ds s = rw (free_each-param ds s, free_params, ◌>>=◌) refl
