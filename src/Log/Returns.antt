-- ===== src/Log/Returns.antt =====
-- That a dump of a message and the log of an error return, and where the latter does not
-- (_zdtm_dump_msg_log, _zdtm_log_error and _zdtm_write_log of src/zdtm_log.c).
use lib_zdtm_sync.Prelude.{
  ℕ, zero, suc, ◌+◌, ◌-◌, ◌≤◌, ◌≡◌, ◌⊎◌, refl, none, some, List, [], ◌∷◌, length, if◌then◌else◌,
  ltb, leb, Bool-cases, Option-cases, inl, inr, arith,
}
use lib_zdtm_sync.Prelude.Int.{ℤ, nonzero}
use lib_zdtm_sync.Run.{
  M, Run, ok, fault, spin, pure, ◌>>=◌, ◌>>◌, return_if, split, split_all, split_short,
}
use lib_zdtm_sync.Env.{State}
use lib_zdtm_sync.Platform.{Platform, error_line, dump_start, type_line, content_label}
use lib_zdtm_sync.Requests.{pointee}
use lib_zdtm_sync.Message.{Msg}
use lib_zdtm_sync.Log.{write_log, log_error}
use lib_zdtm_sync.Log.KeepsEnv.{log_error-env, dump_msg_log-env}
use lib_zdtm_sync.Log.Dump.{Cat, joined, outside, text, stop, emit, dump_rows, dump_msg_log}
use lib_zdtm_sync.Log.Bounds.{Prints, Fits, row-Fits, line-Fits, header-Fits, sizes-Fits}

unfoldable HasReturned : {S A : Type 0} → Run S A → Type 0
HasReturned (ok a s) = Unit {0}
HasReturned fault = ⊥
HasReturned spin = ⊥

tt-returned : {S A : Type 0} (a : A) (s : S) → HasReturned (ok a s)
unfolding HasReturned
tt-returned a s = tt

returned-ok : {S A : Type 0} (r : Run S A) → HasReturned r → (a : A) × (s : S) × (r ≡ ok a s)
unfolding HasReturned
returned-ok (ok a s) h = (a, s, refl)
returned-ok fault h = elim h [ ]
returned-ok spin h = elim h [ ]

bind-returns :
    {S A B : Type 0} (m : M S A) (f : A → M S B) (s : S)
    → HasReturned (m s)
    → ((a : A) (t : S) → HasReturned (f a t))
    → HasReturned ((m >>= f) s)
bind-returns m f s h k = let (a, t, e) = returned-ok (m s) h in rw (e, ◌>>=◌) (k a t)

split_within :
    (n : ℕ) (b : List ℕ)
    → n ≤ length b
    → (row : List ℕ) × (rest : List ℕ) × (split n b ≡ some (row, rest))
      × (length row ≡ n)
      × (length rest + n ≡ length b)
split_within zero b h = ([], b, refl, refl, omega arith)
split_within (suc n) [] h = absurd (omega arith)
split_within (suc n) (x ∷ b) h =
    let (row, rest, e, k, l) = split_within n b (omega arith) in
    (x ∷ row, rest, rw e refl, omega arith, omega arith)

-- the bytes of a row, of the m bytes that are left
abbrev row_size : ℕ → ℕ
row_size m = if leb 15 m then 15 else m

row_size-bounds : (m : ℕ) → (row_size m ≤ 15) × (row_size m ≤ m) × ((m ≡ 0) ⊎ (1 ≤ row_size m))
row_size-bounds m = (ground arith, ground arith, ground arith)

module _ {W : Type 0} (p : Platform W) where
  write_log-returns :
      (b : List ℕ) (n : ℕ) (s : State W) → length b ≡ n → HasReturned (write_log p b n s)
  unfolding write_log HasReturned
  write_log-returns b n s h = grind (arith, split_all)

  emit-returns : (n : ℕ) (c : Cat) (s : State W) → Fits p n c → HasReturned (emit p c s)
  unfolding emit Fits
  emit-returns n outside s f = elim f [ ]
  emit-returns n (joined (stop r)) s f = tt-returned r s
  emit-returns n (joined (text b used)) s f =
      bind-returns (write_log p b used) _ s (write_log-returns b used s f.1)
        (λ r t. tt-returned _ t)

  -- a part of the dump, and the rest, which is left out where the code of the part is not 0
  -- a part of the dump, and the rest, which is left out where the code of the part is not 0
  part-returns :
      (m n : M (State W) ℤ)
      → ((t : State W) → HasReturned (m t))
      → ((t : State W) → HasReturned (n t))
      → (s : State W) → HasReturned ((m >>= λ r. return_if (nonzero r) (pure r) >> n) s)
  part-returns m n hm hn s = bind-returns m _ s (hm s) (λ r t. elim (Bool-cases (nonzero r)) [
    | inl b ↦ rw (b, ◌>>◌) (tt-returned r t)
    | inr b ↦ rw (b, ◌>>◌) (hn t)
  ])

  dump_rows-returns :
      (fuel i n : ℕ) (content : List ℕ) (s : State W)
      → Prints p
      → length content + i ≡ n
      → n + 1 ≤ fuel + i
      → HasReturned (dump_rows p fuel i n content s)
  unfolding dump_rows
  dump_rows-returns zero i n content s h size f = absurd (omega arith)
  dump_rows-returns (suc fuel) i n content s h size f = elim (Bool-cases (ltb i n)) [
    | inl more ↦
        let below : i + 1 ≤ n = ground arith in
        let (short, within, some_bytes) = row_size-bounds (n - i) in
        let (row, rest, e, k, l) = split_within (row_size (n - i)) content (omega arith) in
        let part = λ (t : State W). emit-returns 89 _ t (row-Fits p i row h (omega arith)) in
        let later : (t : State W) → HasReturned (dump_rows p fuel (i + row_size (n - i)) n rest t) =
          λ t.
            dump_rows-returns fuel (i + row_size (n - i)) n rest t h (omega arith) (omega arith) in
        rw (more, e, dump_rows) (part-returns _ _ part later s)
    | inr last ↦ rw (last, dump_rows) (tt-returned _ s)
  ]

  dump_msg_log-HasReturned :
      (m : Msg) (s : State W)
      → Prints p
      → length m.header ≡ 13
      → length (pointee m.raw_content) ≡ m.cont_size
      → HasReturned (dump_msg_log p m s)
  unfolding dump_msg_log
  dump_msg_log-HasReturned m s h header content =
      part-returns _ _ (λ t. emit-returns 25 _ t (line-Fits p dump_start h (omega arith)))
        (part-returns _ _ (λ t. emit-returns 74 _ t (header-Fits p m.header h header))
          (part-returns _ _
            (λ t. emit-returns 62 _ t (line-Fits p (type_line m.mtype) h (omega arith)))
            (part-returns _ _ (λ t. emit-returns 15 _ t (line-Fits p content_label h (omega arith)))
              (part-returns _ _
                (λ t.
                  dump_rows-returns (m.cont_size + 1) 0 m.cont_size (pointee m.raw_content) t h
                    (omega arith) (omega arith))
                (λ t. emit-returns 159 _ t (sizes-Fits p m h))))))
        s

  -- The dump of a message whose header has thirteen bytes and whose raw content has as many bytes
  -- as its content size says returns, whatever the log is and whatever fwrite and fflush return:
  -- every line and the NUL behind it fit in the buffer of 256 bytes, nothing is read outside the
  -- content, and the loop over the rows ends. The environment stays as it is.
  pub dump_msg_log-returns :
      (m : Msg) (s : State W)
      → Prints p
      → length m.header ≡ 13
      → length (pointee m.raw_content) ≡ m.cont_size
      → (r : ℤ) × (t : State W) × (dump_msg_log p m s ≡ ok r t) × (t.env ≡ s.env)
  dump_msg_log-returns m s h header content =
      let (r, t, run) = returned-ok _ (dump_msg_log-HasReturned m s h header content) in
      (r, t, run, dump_msg_log-env p m s t r run)

  log_error-HasReturned :
      (func_name : List ℕ) (err : ℤ) (s : State W)
      → Prints p
      → length func_name ≤ 234
      → HasReturned (log_error p func_name err s)
  unfolding log_error HasReturned
  log_error-HasReturned func_name err s h short =
      elim (Option-cases (p.snprintf (error_line func_name err) 256)) [
        | inl e ↦ ground arith
        | inr ((n, b), e) ↦
            let most : n ≤ length func_name + 21 = h.within _ 256 n b e in
            let size : length b ≡ n = h.stored _ 256 n b e (omega arith) in
            let (r, t, run) = returned-ok _ (write_log-returns b n s size) in grind (arith, run)
      ]

  -- An error is logged without undefined behaviour, and the call returns, where the name of the
  -- function has 234 bytes at most: the line fits in the buffer of 256 bytes with its NUL. The
  -- environment stays as it is.
  pub log_error-returns :
      (func_name : List ℕ) (err : ℤ) (s : State W)
      → Prints p
      → length func_name ≤ 234
      → (r : ℤ) × (t : State W) × (log_error p func_name err s ≡ ok r t) × (t.env ≡ s.env)
  log_error-returns func_name err s h short =
      let (r, t, run) = returned-ok _ (log_error-HasReturned func_name err s h short) in
      (r, t, run, log_error-env p func_name err s t r run)

  -- An error whose line is longer than 256 bytes makes the call read behind the buffer where a log is
  -- open: snprintf returns the length of the whole line and stores what fits, and the test behind
  -- it looks for 256 alone.
  pub log_error-long :
      (func_name : List ℕ) (err : ℤ) (s : State W) (n fp : ℕ) (b : List ℕ)
      → p.snprintf (error_line func_name err) 256 ≡ some (n, b)
      → 257 ≤ n
      → length b ≤ 256
      → s.env.logfp ≡ some fp
      → log_error p func_name err s ≡ fault
  unfolding log_error write_log
  log_error-long func_name err s n fp b e long cut opened =
      let short : split n b ≡ none = split_short n b (omega arith) in grind arith
