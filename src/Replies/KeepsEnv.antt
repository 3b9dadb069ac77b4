-- ===== src/Replies/KeepsEnv.antt =====
-- Parsing the content of a message does not change the environment.
use lib_zdtm_sync.Prelude.{ℕ, zero, suc, Option, List, [], ◌∷◌, ◌≡◌, arith}
use lib_zdtm_sync.Prelude.Int.{ℤ}
use lib_zdtm_sync.Run.{ok}
use lib_zdtm_sync.Bytes.{Endian}
use lib_zdtm_sync.Env.{State, FormatParam}
use lib_zdtm_sync.Platform.{Platform}
use lib_zdtm_sync.Contents.{Aay, Aig, Amg, Atg, Ang, Adw, Adi, Adr, Asy, DataParam}
use lib_zdtm_sync.Replies.{
  parse_raw_aay_msg, parse_raw_aig_msg, parse_raw_amg_msg, parse_raw_atg_msg, parse_raw_ang_msg,
  parse_raw_adw_msg,
}
use lib_zdtm_sync.Replies.Adi.{
  read_abrevs, read_type_ids, read_descs, free_descs, read_format, parse_raw_adi_msg,
}
use lib_zdtm_sync.Replies.Adr.{free_data, read_params, parse_raw_adr_msg}
use lib_zdtm_sync.Replies.Asy.{read_ids, read_list, parse_raw_asy_msg}

module _ {W : Type 0} where
  read_abrevs-env :
      (n : ℕ) (b : List ℕ) (s t : State W) (r : List FormatParam × List ℕ)
      → read_abrevs n b s ≡ ok r t
      → t.env ≡ s.env
  unfolding read_abrevs
  read_abrevs-env zero b s t r e = ground arith
  read_abrevs-env (suc n) b s t r e = grind (arith, read_abrevs-env n)

  read_type_ids-env :
      (xs : List FormatParam) (b : List ℕ) (s t : State W) (r : List FormatParam × List ℕ)
      → read_type_ids xs b s ≡ ok r t
      → t.env ≡ s.env
  unfolding read_type_ids
  read_type_ids-env [] b s t r e = ground arith
  read_type_ids-env (x ∷ xs) b s t r e = grind (arith, read_type_ids-env xs)

  free_descs-env :
      (xs : List FormatParam) (s t : State W) (r : Unit {0})
      → free_descs xs s ≡ ok r t
      → t.env ≡ s.env
  unfolding free_descs
  free_descs-env [] s t r e = ground arith
  free_descs-env (x ∷ xs) s t r e = grind (arith, free_descs-env xs)

  free_data-env :
      (xs : List DataParam) (s t : State W) (r : Unit {0}) → free_data xs s ≡ ok r t → t.env ≡ s.env
  unfolding free_data
  free_data-env [] s t r e = ground arith
  free_data-env (x ∷ xs) s t r e = grind (arith, free_data-env xs)

  read_ids-env :
      (o : Endian) (n : ℕ) (b : List ℕ) (s t : State W) (r : List ℕ × List ℕ)
      → read_ids o n b s ≡ ok r t
      → t.env ≡ s.env
  unfolding read_ids
  read_ids-env o zero b s t r e = ground arith
  read_ids-env o (suc n) b s t r e = grind (arith, read_ids-env o n)

module _ {W : Type 0} (p : Platform W) where
  pub parse_raw_aay_msg-env :
      (b : List ℕ) (c : Aay) (s t : State W) (r : ℤ × Aay)
      → parse_raw_aay_msg p b c s ≡ ok r t
      → t.env ≡ s.env
  unfolding parse_raw_aay_msg
  parse_raw_aay_msg-env b c s t r e = ground arith

  pub parse_raw_aig_msg-env :
      (b : List ℕ) (c : Aig) (s t : State W) (r : ℤ × Aig)
      → parse_raw_aig_msg p b c s ≡ ok r t
      → t.env ≡ s.env
  unfolding parse_raw_aig_msg
  parse_raw_aig_msg-env b c s t r e = ground arith

  pub parse_raw_amg_msg-env :
      (b : List ℕ) (c : Amg) (s t : State W) (r : ℤ × Amg)
      → parse_raw_amg_msg p b c s ≡ ok r t
      → t.env ≡ s.env
  unfolding parse_raw_amg_msg
  parse_raw_amg_msg-env b c s t r e = ground arith

  pub parse_raw_atg_msg-env :
      (b : List ℕ) (c : Atg) (s t : State W) (r : ℤ × Atg)
      → parse_raw_atg_msg p b c s ≡ ok r t
      → t.env ≡ s.env
  unfolding parse_raw_atg_msg
  parse_raw_atg_msg-env b c s t r e = ground arith

  pub parse_raw_ang_msg-env :
      (b : List ℕ) (c : Ang) (s t : State W) (r : ℤ × Ang)
      → parse_raw_ang_msg p b c s ≡ ok r t
      → t.env ≡ s.env
  unfolding parse_raw_ang_msg
  parse_raw_ang_msg-env b c s t r e = ground arith

  pub parse_raw_adw_msg-env :
      (b : List ℕ) (c : Adw) (s t : State W) (r : ℤ × Adw)
      → parse_raw_adw_msg p b c s ≡ ok r t
      → t.env ≡ s.env
  unfolding parse_raw_adw_msg
  parse_raw_adw_msg-env b c s t r e = ground arith

  read_descs-env :
      (xs done : List FormatParam) (b : List ℕ) (s t : State W)
      (r : Option (List FormatParam × List ℕ))
      → read_descs p done xs b s ≡ ok r t
      → t.env ≡ s.env
  unfolding read_descs
  read_descs-env [] done b s t r e = ground arith
  read_descs-env (x ∷ xs) done b s t r e = grind (arith, free_descs-env, read_descs-env xs)

  read_format-env :
      (cards n uk : ℕ) (b : List ℕ) (s t : State W) (r : ℤ × Adi)
      → read_format p cards n uk b s ≡ ok r t
      → t.env ≡ s.env
  unfolding read_format
  read_format-env cards n uk b s t r e =
      grind (arith, read_abrevs-env, read_type_ids-env, read_descs-env)

  pub parse_raw_adi_msg-env :
      (b : List ℕ) (c : Adi) (s t : State W) (r : ℤ × Adi)
      → parse_raw_adi_msg p b c s ≡ ok r t
      → t.env ≡ s.env
  unfolding parse_raw_adi_msg
  parse_raw_adi_msg-env b c s t r e = grind (arith, read_format-env)

  read_params-env :
      (n : ℕ) (done : List DataParam) (b : List ℕ) (s t : State W)
      (r : Option (List DataParam × List ℕ))
      → read_params p done n b s ≡ ok r t
      → t.env ≡ s.env
  unfolding read_params
  read_params-env zero done b s t r e = ground arith
  read_params-env (suc n) done b s t r e = grind (arith, free_data-env, read_params-env n)

  pub parse_raw_adr_msg-env :
      (b : List ℕ) (c : Adr) (s t : State W) (r : ℤ × Adr)
      → parse_raw_adr_msg p b c s ≡ ok r t
      → t.env ≡ s.env
  unfolding parse_raw_adr_msg
  parse_raw_adr_msg-env b c s t r e = grind (arith, read_params-env)

  read_list-env :
      (b : List ℕ) (s t : State W) (r : ℕ × ℕ × Option (List ℕ) × List ℕ)
      → read_list p b s ≡ ok r t
      → t.env ≡ s.env
  unfolding read_list
  read_list-env b s t r e = grind (arith, read_ids-env)

  pub parse_raw_asy_msg-env :
      (b : List ℕ) (c : Asy) (s t : State W) (r : ℤ × Asy)
      → parse_raw_asy_msg p b c s ≡ ok r t
      → t.env ≡ s.env
  unfolding parse_raw_asy_msg
  parse_raw_asy_msg-env b c s t r e = grind (arith, read_list-env)
