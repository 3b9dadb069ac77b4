-- ===== src/Run.antt =====
-- What a call of a C function does to the program's state: it returns a value in a new state, it
-- does something that the C language leaves undefined (a read or a write outside an object), or a
-- loop outlives the bound that the model gives it.
use lib_zdtm_sync.Prelude.{
  ℕ, zero, suc, ◌+◌, ◌≤◌, ◌≡◌, refl, Bool, drop, Option, none, some, List, [], ◌∷◌, ◌++◌,
  if◌then◌else◌, length, arith,
}

pub data Run (S A : Type 0) : Type 0 where
  ok : A → S → Run S A
  fault : Run S A
  spin : Run S A

abbrev pub M : Type 0 → Type 0 → Type 0
M S A = S → Run S A

abbrev pub pure : {S A : Type 0} → A → M S A
pure a s = ok a s

-- undefined behaviour
abbrev pub undefined : {S A : Type 0} → M S A
undefined s = fault

infixl 5 ◌>>=◌ ◌>>◌
abbrev pub ◌>>=◌ : {S A B : Type 0} → M S A → (A → M S B) → M S B
◌>>=◌ m f s = elim (m s) [ ok a s' ↦ f a s' | fault ↦ fault | spin ↦ spin ]

-- `if (test) { stop }`, where `stop` ends in a return statement; the rest of the function follows.
pub record Guard (S A : Type 0) : Type 0 where
  pub test : Bool
  pub stop : M S A

abbrev pub return_if : {S A : Type 0} → Bool → M S A → Guard S A
return_if t m = record { test = t; stop = m }

abbrev pub ◌>>◌ : {S A : Type 0} → Guard S A → M S A → M S A
◌>>◌ g k s = if g.test then g.stop s else k s

abbrev pub gets : {S A : Type 0} → (S → A) → M S A
gets f s = ok (f s) s

abbrev pub modify : {S : Type 0} → (S → S) → M S (Unit {0})
modify f s = ok tt (f s)

-- A value that is undefined behaviour to ask for where there is none.
abbrev pub defined : {S A : Type 0} → Option A → M S A
defined none s = fault
defined (some a) s = ok a s

-- A postcondition that a run meets by returning; neither of the other two ends meets one.
abbrev pub Returns : {S A : Type 0} → (A → S → Type 0) → Run S A → Type 0
Returns P (ok a s) = P a s
Returns P fault = ⊥
Returns P spin = ⊥

-- The first n bytes of an object and what follows them; `none` where the object is shorter.
abbrev pub split {ℓ} : {A : Type ℓ} → ℕ → List A → Option (List A × List A)
split zero b = some ([], b)
split (suc n) [] = none
split (suc n) (x ∷ b) = elim (split n b) [
  | none ↦ none
  | some (front, rest) ↦ some (x ∷ front, rest)
]

pub split-append {ℓ} : {A : Type ℓ} (xs ys : List A) → split (length xs) (xs ++ ys) ≡ some (xs, ys)
split-append [] ys = refl
split-append (x ∷ xs) ys = rw (split-append xs ys)

pub split_front {ℓ} :
    {A : Type ℓ} (n : ℕ) (xs ys : List A) → length xs ≡ n → split n (xs ++ ys) ≡ some (xs, ys)
split_front n xs ys h = rw⁻¹ h (split-append xs ys)

pub split_all {ℓ} : {A : Type ℓ} (n : ℕ) (b : List A) → length b ≡ n → split n b ≡ some (b, [])
split_all zero [] h = refl
split_all zero (x ∷ b) h = absurd (omega arith)
split_all (suc n) [] h = absurd (omega arith)
split_all (suc n) (x ∷ b) h = rw (split_all n b (omega arith))

pub split_short {ℓ} : {A : Type ℓ} (n : ℕ) (b : List A) → length b + 1 ≤ n → split n b ≡ none
split_short zero b h = absurd (omega arith)
split_short (suc n) [] h = refl
split_short (suc n) (x ∷ b) h = rw (split_short n b (omega arith))

-- `memcpy` of a string into an object from its first byte: undefined where the object is smaller.
abbrev pub overlay {ℓ} : {A : Type ℓ} → List A → List A → Option (List A)
overlay [] b = some b
overlay (x ∷ src) [] = none
overlay (x ∷ src) (y ∷ b) = elim (overlay src b) [ none ↦ none | some b' ↦ some (x ∷ b') ]

pub overlay_full {ℓ} :
    {A : Type ℓ} (src b : List A) → length src ≡ length b → overlay src b ≡ some src
overlay_full [] [] h = refl
overlay_full [] (y ∷ b) h = absurd (omega arith)
overlay_full (x ∷ src) [] h = absurd (omega arith)
overlay_full (x ∷ src) (y ∷ b) h = rw (overlay_full src b (omega arith))

pub overlay_front {ℓ} :
    {A : Type ℓ} (src b : List A)
    → length src ≤ length b
    → overlay src b ≡ some (src ++ drop (length src) b)
overlay_front [] b h = refl
overlay_front (x ∷ src) [] h = absurd (omega arith)
overlay_front (x ∷ src) (y ∷ b) h = rw (overlay_front src b (omega arith)) refl

pub overlay_long {ℓ} :
    {A : Type ℓ} (src b : List A) → length b + 1 ≤ length src → overlay src b ≡ none
overlay_long [] b h = absurd (omega arith)
overlay_long (x ∷ src) [] h = refl
overlay_long (x ∷ src) (y ∷ b) h = rw (overlay_long src b (omega arith))

-- A postcondition of the runs that return. The other two ends meet it too.
abbrev pub Ends : {S A : Type 0} → (A → S → Type 0) → Run S A → Type 0
Ends P (ok a s) = P a s
Ends P fault = Unit
Ends P spin = Unit

Ends-elim :
    {S A B : Type 0} (P : A → S → Type 0) (Q : B → S → Type 0) (r : Run S A) (f : A → M S B)
    → Ends P r
    → ((a : A) (t : S) → P a t → Ends Q (f a t))
    → Ends Q (elim r [ ok a s' ↦ f a s' | fault ↦ fault | spin ↦ spin ])
Ends-elim P Q (ok a t) f h k = k a t h
Ends-elim P Q fault f h k = tt
Ends-elim P Q spin f h k = tt

-- The rule for a sequence.
pub Ends-bind :
    {S A B : Type 0} (P : A → S → Type 0) (Q : B → S → Type 0) (m : M S A) (f : A → M S B) (s : S)
    → Ends P (m s)
    → ((a : A) (t : S) → P a t → Ends Q (f a t))
    → Ends Q ((m >>= f) s)
Ends-bind P Q m f s h k = Ends-elim P Q (m s) f h k

pub Ends-any : {S A : Type 0} (r : Run S A) → Ends (λ a t. Unit {0}) r
Ends-any (ok a t) = tt
Ends-any fault = tt
Ends-any spin = tt
