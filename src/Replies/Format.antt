-- ===== src/Replies/Format.antt =====
-- A parameter format that is parsed has as many entries as it says.
use lib_zdtm_sync.Prelude.{
  ℕ, zero, suc, ◌+◌, Option, none, some, List, [], ◌∷◌, length, length-append, ◌≡◌, false, arith,
}
use lib_zdtm_sync.Prelude.Int.{ℤ, nonzero}
use lib_zdtm_sync.Run.{ok}
use lib_zdtm_sync.Env.{State, FormatParam}
use lib_zdtm_sync.Env.Valid.{IsFormat}
use lib_zdtm_sync.Platform.{Platform}
use lib_zdtm_sync.Contents.{Adi}
use lib_zdtm_sync.Replies.Adi.{
  read_abrevs, read_type_ids, read_descs, read_format, parse_raw_adi_msg,
}

module _ {W : Type 0} where
  read_abrevs-length :
      (n : ℕ) (b : List ℕ) (s t : State W) (r : List FormatParam × List ℕ)
      → read_abrevs n b s ≡ ok r t
      → length r.0 ≡ n
  unfolding read_abrevs
  read_abrevs-length zero b s t r e = ground arith
  read_abrevs-length (suc n) b s t r e = grind (arith, read_abrevs-length n)

  read_type_ids-length :
      (xs : List FormatParam) (b : List ℕ) (s t : State W) (r : List FormatParam × List ℕ)
      → read_type_ids xs b s ≡ ok r t
      → length r.0 ≡ length xs
  unfolding read_type_ids
  read_type_ids-length [] b s t r e = ground arith
  read_type_ids-length (x ∷ xs) b s t r e = grind (arith, read_type_ids-length xs)

-- the length of what the third loop gives, if it gives anything
abbrev HasLength : ℕ → Option (List FormatParam × List ℕ) → Type 0
HasLength n none = Unit
HasLength n (some (xs, b)) = length xs ≡ n

module _ {W : Type 0} (p : Platform W) where
  read_descs-length :
      (xs done : List FormatParam) (b : List ℕ) (s t : State W)
      (r : Option (List FormatParam × List ℕ))
      → read_descs p done xs b s ≡ ok r t
      → HasLength (length done + length xs) r
  unfolding read_descs
  read_descs-length [] done b s t r e = ground arith
  read_descs-length (x ∷ xs) done b s t r e = grind (arith, length-append, read_descs-length xs)

  read_format-IsFormat :
      (cards n uk : ℕ) (b : List ℕ) (s t : State W) (r : ℤ × Adi)
      → read_format p cards n uk b s ≡ ok r t
      → nonzero r.0 ≡ false
      → IsFormat r.1.num_params r.1.params
  unfolding read_format IsFormat
  read_format-IsFormat cards n uk b s t r e h =
      grind (arith, read_abrevs-length, read_type_ids-length, read_descs-length)

  pub parse_raw_adi_msg-IsFormat :
      (b : List ℕ) (c : Adi) (s t : State W) (r : ℤ × Adi)
      → parse_raw_adi_msg p b c s ≡ ok r t
      → nonzero r.0 ≡ false
      → IsFormat r.1.num_params r.1.params
  unfolding parse_raw_adi_msg
  parse_raw_adi_msg-IsFormat b c s t r e h = grind (arith, read_format-IsFormat)
