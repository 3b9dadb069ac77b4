-- ===== src/Platform/Blocks.antt =====
-- The states behind calls of malloc that give what is asked for.
use lib_zdtm_sync.Prelude.{
  ℕ, ◌+◌, ◌≡◌, ap, ◌∙◌, Option-cases, inl, inr, some, List, [], ◌∷◌, length, arith,
}
use lib_zdtm_sync.Run.{ok}
use lib_zdtm_sync.Env.{State}
use lib_zdtm_sync.Platform.{Platform, allocate, AllocatesExactly, NeverFull}

module _ {W : Type 0} (p : Platform W) where
  -- The state behind one successful malloc.
  abbrev pub after_malloc : ℕ → State W → State W
  after_malloc n s = record s { sys = (p.malloc n s.sys).1; blocks = s.blocks + 1 }

  pub malloc-some : NeverFull p → (n : ℕ) (w : W) → (b : List ℕ) × ((p.malloc n w).0 ≡ some b)
  malloc-some full n w = elim (Option-cases (p.malloc n w).0) [
    | inl e ↦ absurd (full.allocated n w e)
    | inr found ↦ found
  ]

  pub allocate-some :
      (n : ℕ) (s : State W)
      → AllocatesExactly p
      → NeverFull p
      → (b : List ℕ) × (allocate p n s ≡ ok (some b) (after_malloc n s)) × (length b ≡ n)
  allocate-some n s exact full = elim (Option-cases (p.malloc n s.sys).0) [
    | inl e ↦ absurd (full.allocated n s.sys e)
    | inr (b, e) ↦ (b, rw (e, allocate), exact.size n s.sys b e)
  ]

  -- Behind several, of the sizes given.
  abbrev pub after_mallocs : List ℕ → State W → State W
  after_mallocs [] s = s
  after_mallocs (n ∷ ns) s = after_mallocs ns (after_malloc n s)

  -- Such calls change the world and the number of blocks alone.
  pub after_mallocs-blocks :
      (ns : List ℕ) (s : State W)
      → after_mallocs ns s
        ≡ record s { sys = (after_mallocs ns s).sys; blocks = s.blocks + length ns }
  after_mallocs-blocks [] s = ap (λ n. record s { blocks = n }) (omega arith)
  after_mallocs-blocks (n ∷ ns) s =
      after_mallocs-blocks ns (after_malloc n s)
      ∙ ap (λ k. record s { sys = (after_mallocs ns (after_malloc n s)).sys; blocks = k })
          (omega arith)
