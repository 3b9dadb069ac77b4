-- ===== src/Sync/Finalize.antt =====
-- The memory that zdtm_finalize frees (src/zdtm_sync.c).
use lib_zdtm_sync.Prelude.{
  ℕ, zero, suc, ◌+◌, ◌-◌, ◌≤◌, Option, none, some, List, [], ◌∷◌, length, ◌≡◌, ◌⊎◌, inl, inr, refl,
  ap, Bool-cases, Option-cases, ◌∙◌, arith,
}
use lib_zdtm_sync.Prelude.Int.{ℤ, pos, negsuc, nonzero}
use lib_zdtm_sync.Run.{M, ok, pure, Returns, ◌>>=◌}
use lib_zdtm_sync.Env.{Env, State, FormatParam, free}
use lib_zdtm_sync.Env.Valid.{IsFormat, IsEnv}
use lib_zdtm_sync.Platform.{Platform}
use lib_zdtm_sync.Log.{close_log}
use lib_zdtm_sync.Net.{is_error, stop_listening}
use lib_zdtm_sync.Sync.{free_format, free_env, finalize}

abbrev one_if : {A : Type 0} → Option A → ℕ
one_if none = 0
one_if (some _) = 1

-- The descriptions that are not NULL.
abbrev descs : List FormatParam → ℕ
descs [] = 0
descs (x ∷ xs) = one_if x.desc + descs xs

abbrev of_format : Option (List FormatParam) → ℕ
of_format none = 0
of_format (some params) = descs params + 1

-- The blocks that an environment owns: the parameter format with its descriptions, and the passcode.
unfoldable pub owned : Env → ℕ
owned env = of_format env.params + one_if env.passcode

-- Either a code of failure, with no block freed, or 0, with all blocks freed that the environment
-- owns.
abbrev pub Freed : {W : Type 0} → State W → ℤ → State W → Type 0
Freed s r t =
    (t.env ≡ s.env)
    × (((r ≡ negsuc 0) × (t.blocks ≡ s.blocks))
        ⊎ (((r ≡ negsuc 1) × (t.blocks ≡ s.blocks))
            ⊎ ((r ≡ pos 0) × (t.blocks + owned s.env ≡ s.blocks))))

module _ {W : Type 0} (p : Platform W) where
  desc-frees :
      (o : Option (List ℕ)) (n : ℕ) (xs : List FormatParam) (s : State W)
      → ((u : State W) → free_format p n xs u ≡ ok tt (record u { blocks = u.blocks - descs xs }))
      → (free o >>= λ _. free_format p n xs) s
        ≡ ok tt (record s { blocks = s.blocks - (one_if o + descs xs) })
  desc-frees none n xs s k = k s ∙ ap (λ b. ok tt (record s { blocks = b })) (omega arith)
  desc-frees (some d) n xs s k =
      k (record s { blocks = s.blocks - 1 })
      ∙ ap (λ b. ok tt (record s { blocks = b })) (omega arith)

  free_format-frees :
      (xs : List FormatParam) (n : ℕ) (s : State W)
      → length xs ≡ n
      → free_format p n xs s ≡ ok tt (record s { blocks = s.blocks - descs xs })
  unfolding free_format
  free_format-frees [] zero s e = ap (λ b. ok tt (record s { blocks = b })) (omega arith)
  free_format-frees [] (suc n) s e = absurd (omega arith)
  free_format-frees (x ∷ xs) zero s e = absurd (omega arith)
  free_format-frees (x ∷ xs) (suc n) s e =
      desc-frees x.desc n xs s (λ u. free_format-frees xs n u (omega arith))

  passcode-frees :
      (o : Option (List ℕ)) (s : State W)
      → free o s ≡ ok tt (record s { blocks = s.blocks - one_if o })
  passcode-frees none s = ap (λ b. ok tt (record s { blocks = b })) (omega arith)
  passcode-frees (some d) s = refl

  -- the two calls of free behind the loop, with the loop
  format-frees :
      (o : Option (List FormatParam)) (n : ℕ) (s : State W)
      → IsFormat n o
      → (elim o as (λ _. M (State W) (Unit {0})) [
        | none ↦ pure tt
        | some params ↦ do _ ← free_format p n params; free (some params)
      ])
          s
        ≡ ok tt (record s { blocks = s.blocks - of_format o })
  unfolding IsFormat
  format-frees none n s h = ap (λ b. ok tt (record s { blocks = b })) (omega arith)
  format-frees (some xs) n s h =
      rw (free_format-frees xs n s h, ◌>>=◌)
        (ap (λ b. ok tt (record s { blocks = b })) (omega arith))

  free_env-frees :
      (s : State W)
      → IsFormat s.env.num_params s.env.params
      → free_env p s ≡ ok (pos 0) (record s { blocks = s.blocks - owned s.env })
  unfolding free_env owned
  free_env-frees s h =
      rw
        (
          format-frees s.env.params s.env.num_params s h,
          passcode-frees s.env.passcode (record s { blocks = s.blocks - of_format s.env.params }),
          free_env,
          ◌>>=◌,
        )
        (ap (λ b. ok (pos 0) (record s { blocks = b })) (omega arith))

  free_env-Freed :
      (s : State W) (w : W)
      → IsFormat s.env.num_params s.env.params
      → owned s.env ≤ s.blocks
      → Returns (Freed s) (free_env p (record s { sys = w }))
  free_env-Freed s w h k =
      rw (free_env-frees (record s { sys = w }) h) (refl, inr (inr (refl, omega arith)))

  close_log-runs : (s : State W) → (r : ℤ) × (w : W) × (close_log p s ≡ ok r (record s { sys = w }))
  unfolding close_log
  close_log-runs s = elim (Option-cases s.env.logfp) [
    | inl l ↦ (negsuc 1, s.sys, rw (l, close_log, ◌>>=◌) refl)
    | inr (fp, l) ↦ elim (Bool-cases (nonzero (p.fclose fp s.sys).0)) [
      | inl c ↦ (negsuc 0, (p.fclose fp s.sys).1, rw (l, c, close_log, ◌>>=◌) refl)
      | inr c ↦ (pos 0, (p.fclose fp s.sys).1, rw (l, c, close_log, ◌>>=◌) refl)
    ]
  ]

  -- zdtm_finalize of a well-formed environment returns, without undefined behaviour, and the
  -- environment is as before. It returns -2 or -1, and no block is freed, or it returns 0, and
  -- every block that the environment owns is freed once. The blocks that the environment owns are
  -- among those that are not freed yet.
  pub finalize-Freed :
      (s : State W) → IsEnv s.env → owned s.env ≤ s.blocks → Returns (Freed s) (finalize p s)
  unfolding finalize stop_listening IsEnv
  finalize-Freed s (arrays, (flags, (type, format))) k =
      let (r, w, log) = close_log-runs (record s { sys = (p.close s.env.listenfd s.sys).1 }) in
      elim (Bool-cases (is_error (p.close s.env.listenfd s.sys).0)) [
        | inl g ↦ rw (g, finalize, stop_listening, ◌>>=◌) (refl, inr (inl (refl, refl)))
        | inr g ↦ elim (Bool-cases (nonzero r)) [
          | inl c ↦ rw (g, log, c, finalize, stop_listening, ◌>>=◌) (refl, inl (refl, refl))
          | inr c ↦ rw (g, log, c, finalize, stop_listening, ◌>>=◌) (free_env-Freed s w format k)
        ]
      ]
