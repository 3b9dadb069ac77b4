-- ===== src/Replies/Adr/Params.antt =====
-- The loop of zdtm_parse_raw_adr_msg over an independent description of its bytes.
use lib_zdtm_sync.Prelude.{
  ℕ, suc, ◌<◌, ◌≡◌, refl, sym, ap, ◌∙◌, some, List, [], ◌∷◌, ◌++◌, map, length,
}
use lib_zdtm_sync.Bytes.{little, mem32}
use lib_zdtm_sync.Bytes.Order.{load32-mem32}
use lib_zdtm_sync.Run.{ok, split_front, ◌>>=◌}
use lib_zdtm_sync.Env.{State}
use lib_zdtm_sync.Platform.{Platform, NeverFull}
use lib_zdtm_sync.Contents.{DataParam}
use lib_zdtm_sync.Replies.Adr.{read_params}
use lib_zdtm_sync.Platform.Blocks.{after_malloc, after_mallocs, malloc-some}
use mathlib.Core.List.{append-nil, append_assoc}

-- The bytes of a list of parameters: each its length, then its data.
abbrev pub encode : List (List ℕ) → List ℕ
encode [] = []
encode (d ∷ ds) = mem32 little (length d) ++ (d ++ encode ds)

-- Lengths that fit the size field.
abbrev pub FitsSizes : List (List ℕ) → Type 0
FitsSizes [] = Unit
FitsSizes (d ∷ ds) = (length d < 4294967296) × FitsSizes ds

abbrev pub param : List ℕ → DataParam
param d = record { param_len = length d; param_data = some d }

module _ {W : Type 0} (p : Platform W) where
  read_params-round :
      (done : List DataParam) (n : ℕ) (d rest : List ℕ) (s : State W)
      → NeverFull p
      → length d < 4294967296
      → read_params p done (suc n) (mem32 little (length d) ++ (d ++ rest)) s
        ≡ read_params p (done ++ (param d ∷ [])) n rest (after_malloc p (length d) s)
  unfolding read_params
  read_params-round done n d rest s full h =
      let (block, alloc) = malloc-some p full (length d) s.sys in
      rw
        (
          load32-mem32 p.order (length d) h,
          alloc,
          load32-mem32 p.order (length d) h,
          split_front (length d) d rest refl,
          read_params,
          ◌>>=◌,
        )
        (rw (load32-mem32 p.order (length d) h) refl)

  -- Where memory does not run out, the loop reads back every list of parameters whose lengths fit the
  -- size field, behind those already read, leaves the bytes behind the list, and allocates a block of
  -- its length for each parameter.
  pub read_params-encode :
      (done : List DataParam) (ds : List (List ℕ)) (rest : List ℕ) (s : State W)
      → NeverFull p
      → FitsSizes ds
      → read_params p done (length ds) (encode ds ++ rest) s
        ≡ ok (some (done ++ map param ds, rest)) (after_mallocs p (map length ds) s)
  unfolding read_params
  read_params-encode done [] rest s full h =
      ap (λ xs. ok (some (xs, rest)) s) (sym (append-nil done))
  read_params-encode done (d ∷ ds) rest s full (h, hs) =
      ap (λ b. read_params p done (suc (length ds)) (mem32 little (length d) ++ b) s)
        (append_assoc d (encode ds) rest)
      ∙ read_params-round done (length ds) d (encode ds ++ rest) s full h
      ∙ read_params-encode (done ++ (param d ∷ [])) ds rest (after_malloc p (length d) s) full hs
      ∙ ap (λ xs. ok (some (xs, rest)) (after_mallocs p (map length (d ∷ ds)) s))
          (append_assoc done (param d ∷ []) (map param ds))
