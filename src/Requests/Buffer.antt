-- ===== src/Requests/Buffer.antt =====
-- How a write function ends: it returns a pointer behind the bytes that it wrote, or NULL after
-- some, or it reads outside an object.
use lib_zdtm_sync.Prelude.{ℕ, Option, none, some, List, [], ◌++◌}
use lib_zdtm_sync.Run.{split}

pub data Written : Type 0 where
  wrote : List ℕ → Written
  null_after : List ℕ → Written
  invalid : Written

-- The bytes that a pointer leads to.
abbrev pub pointee : Option (List ℕ) → List ℕ
pointee none = []
pointee (some b) = b

-- The n bytes that memcpy reads.
abbrev pub read : ℕ → List ℕ → Option (List ℕ)
read n b = elim (split n b) [ none ↦ none | some (front, _) ↦ some front ]

abbrev pub copy : List ℕ → Option (List ℕ) → List ℕ → Written
copy before none after = invalid
copy before (some b) after = wrote (before ++ (b ++ after))

-- One more write behind the bytes so far.
infixl 6 ◌then_copy◌
abbrev pub ◌then_copy◌ : Written → Option (List ℕ) → Written
(wrote b) then_copy none = invalid
(wrote b) then_copy (some c) = wrote (b ++ c)
(null_after b) then_copy c = null_after b
invalid then_copy c = invalid
