-- ===== src/Net/Recv/Stream.antt =====
-- The receive loops of _zdtm_recv_message over a stream of bytes that arrives in pieces.
use lib_zdtm_sync.Prelude.{
  lt_or_ge, List-cases, ℕ, zero, suc, ◌+◌, ◌-◌, ◌≤◌, ◌<◌, ◌≡◌, refl, sym, ap, ◌∙◌, ◌==◌, inl, inr,
  some, List, [], ◌∷◌, ◌++◌, length, length-append, take, drop, if◌then◌else◌, lt→ltb, le→ltb,
  arith,
}
use lib_zdtm_sync.Prelude.Int.{ℤ, negsuc}
use lib_zdtm_sync.Run.{ok}
use lib_zdtm_sync.Env.{State}
use lib_zdtm_sync.Platform.{Platform}
use lib_zdtm_sync.Net.Recv.{filled, broken, recv_loop}
use mathlib.Core.List.{append-nil, append_assoc}

take-append_long :
    (n : ℕ) (c r : List ℕ) → length c ≤ n → take n (c ++ r) ≡ c ++ take (n - length c) r
take-append_long n [] r h = ap (λ k. take k r) (omega arith)
take-append_long zero (x ∷ c) r h = absurd (omega arith)
take-append_long (suc n) (x ∷ c) r h =
    ap (◌∷◌ x) (take-append_long n c r (omega arith) ∙ ap (λ k. c ++ take k r) (omega arith))

drop-append_long : (n : ℕ) (c r : List ℕ) → length c ≤ n → drop n (c ++ r) ≡ drop (n - length c) r
drop-append_long n [] r h = ap (λ k. drop k r) (omega arith)
drop-append_long zero (x ∷ c) r h = absurd (omega arith)
drop-append_long (suc n) (x ∷ c) r h =
    drop-append_long n c r (omega arith) ∙ ap (λ k. drop k r) (omega arith)

-- What recv documents of a stream socket: where bytes are pending, it returns some of the first of
-- them, one at least and no more than asked for, and takes them off; at the end of the stream it
-- returns none.
pub record ReadsStream {W : Type 0} (p : Platform W) (fd : ℤ) (pending : W → List ℕ) : Type 0 where
  pub piece :
      (n : ℕ) (w : W) (y : ℕ) (ys : List ℕ)
      → 0 < n
      → pending w ≡ y ∷ ys
      → (x : ℕ) × (xs : List ℕ) × (rest : List ℕ) × ((p.recv fd n w).0 ≡ some (x ∷ xs))
        × (length (x ∷ xs) ≤ n)
        × (pending w ≡ (x ∷ xs) ++ rest)
        × (pending (p.recv fd n w).1 ≡ rest)
  pub ended :
      (n : ℕ) (w : W)
      → pending w ≡ []
      → ((p.recv fd n w).0 ≡ some []) × (pending (p.recv fd n w).1 ≡ [])

-- The result at a stream that ends early: -1 where nothing came, -2 behind the first bytes.
abbrev pub early_end : List ℕ → ℤ
early_end b = if length b == 0 then negsuc 0 else negsuc 1

module _ {W : Type 0} (p : Platform W) (fd : ℤ) where
  recv_loop-round :
      (fuel size : ℕ) (got : List ℕ) (x : ℕ) (xs : List ℕ) (s : State W)
      → length got < size
      → (p.recv fd (size - length got) s.sys).0 ≡ some (x ∷ xs)
      → length (x ∷ xs) ≤ size - length got
      → recv_loop p (suc fuel) fd size got s
        ≡ recv_loop p fuel fd size
            (got ++ (x ∷ xs))
            (record s { sys = (p.recv fd (size - length got) s.sys).1 })
  unfolding recv_loop
  recv_loop-round fuel size got x xs s h e k =
      rw (lt→ltb (length got) size h, e, le→ltb (size - length got) (length (x ∷ xs)) k, recv_loop)
        refl

  -- What the loop does with the stream: it fills the buffer with the bytes that are missing, and
  -- leaves those behind them.
  abbrev Fills : (W → List ℕ) → ℕ → ℕ → List ℕ → State W → Type 0
  Fills pending fuel size got s =
      (w : W) × (recv_loop p fuel fd size got s
        ≡ ok (filled (got ++ take (size - length got) (pending s.sys))) (record s { sys = w }))
      × (pending w ≡ drop (size - length got) (pending s.sys))

  Fills-round :
      (pending : W → List ℕ) (fuel size : ℕ) (got : List ℕ) (x : ℕ) (xs rest : List ℕ) (s : State W)
      → length got < size
      → size < length got + suc fuel
      → size - length got ≤ length (pending s.sys)
      → (p.recv fd (size - length got) s.sys).0 ≡ some (x ∷ xs)
      → length (x ∷ xs) ≤ size - length got
      → pending s.sys ≡ (x ∷ xs) ++ rest
      → pending (p.recv fd (size - length got) s.sys).1 ≡ rest
      → ((more : List ℕ) (t : State W)
          → length more ≤ size
          → size < length more + fuel
          → size - length more ≤ length (pending t.sys)
          → Fills pending fuel size more t)
      → Fills pending (suc fuel) size got s
  Fills-round pending fuel size got x xs rest s h f k e le now later further =
      let c = x ∷ xs in
      let next : State W = record s { sys = (p.recv fd (size - length got) s.sys).1 } in
      let grown : length (got ++ c) ≡ length got + length c = length-append got c in
      let total : length (pending s.sys) ≡ length c + length rest =
        ap length now ∙ length-append c rest in
      let missing : size - length (got ++ c) ≡ size - length got - length c = omega arith in
      let (w, run, left) =
        further (got ++ c) next (omega arith) (omega arith) (rw later (omega arith)) in
      (
        w,
        recv_loop-round fuel size got x xs s h e le
            ∙ run
            ∙ ap (λ b. ok (filled b) (record s { sys = w }))
                (append_assoc got c (take (size - length (got ++ c)) (pending next.sys))
                  ∙ ap (λ b. got ++ b)
                      (rw (later, missing, now)
                        (sym (take-append_long (size - length got) c rest le)))),
        left ∙ rw (later, missing, now) (sym (drop-append_long (size - length got) c rest le)),
      )

  -- Where the stream holds the bytes that are still missing, the loop fills the buffer with them
  -- whatever the pieces that they arrive in, takes no more of the stream, and needs no more rounds
  -- than the bytes to read and one.
  pub recv_loop-filled :
      (pending : W → List ℕ)
      → ReadsStream p fd pending
      → (fuel size : ℕ) (got : List ℕ) (s : State W) → length got ≤ size
      → size < length got + fuel
      → size - length got ≤ length (pending s.sys)
      → (w : W) × (recv_loop p fuel fd size got s
          ≡ ok (filled (got ++ take (size - length got) (pending s.sys))) (record s { sys = w }))
        × (pending w ≡ drop (size - length got) (pending s.sys))
  unfolding recv_loop
  recv_loop-filled pending r zero size got s h f k = absurd (omega arith)
  recv_loop-filled pending r (suc fuel) size got s h f k = elim (lt_or_ge (length got) size) [
    | inr full ↦
        let none_left : size - length got ≡ 0 = omega arith in
        (
          s.sys,
          rw (le→ltb (length got) size full, none_left, recv_loop)
              (ap (λ g. ok (filled g) s) (sym (append-nil got))),
          rw none_left refl,
        )
    | inl more ↦ elim (List-cases (pending s.sys)) [
      | inl e ↦ absurd (omega (arith, ap length e))
      | inr (y, ys, e) ↦
          let (x, xs, rest, read, le, now, later) =
            r.piece (size - length got) s.sys y ys (omega arith) e in
          Fills-round pending fuel size got x xs rest s more f k read le now later
            (recv_loop-filled pending r fuel size)
    ]
  ]

  abbrev Breaks : (W → List ℕ) → ℕ → ℕ → List ℕ → State W → Type 0
  Breaks pending fuel size got s =
      (w : W) × (recv_loop p fuel fd size got s
        ≡ ok (broken (early_end (got ++ pending s.sys))) (record s { sys = w }))
      × (pending w ≡ [])

  Breaks-round :
      (pending : W → List ℕ) (fuel size : ℕ) (got : List ℕ) (x : ℕ) (xs rest : List ℕ) (s : State W)
      → length got < size
      → size < length got + suc fuel
      → length (pending s.sys) < size - length got
      → (p.recv fd (size - length got) s.sys).0 ≡ some (x ∷ xs)
      → length (x ∷ xs) ≤ size - length got
      → pending s.sys ≡ (x ∷ xs) ++ rest
      → pending (p.recv fd (size - length got) s.sys).1 ≡ rest
      → ((more : List ℕ) (t : State W)
          → length more ≤ size
          → size < length more + fuel
          → length (pending t.sys) < size - length more
          → Breaks pending fuel size more t)
      → Breaks pending (suc fuel) size got s
  Breaks-round pending fuel size got x xs rest s h f k e le now later further =
      let c = x ∷ xs in
      let next : State W = record s { sys = (p.recv fd (size - length got) s.sys).1 } in
      let grown : length (got ++ c) ≡ length got + length c = length-append got c in
      let total : length (pending s.sys) ≡ length c + length rest =
        ap length now ∙ length-append c rest in
      let (w, run, left) =
        further (got ++ c) next (omega arith) (omega arith) (rw later (omega arith)) in
      (
        w,
        recv_loop-round fuel size got x xs s h e le
            ∙ run
            ∙ ap (λ b. ok (broken (early_end b)) (record s { sys = w }))
                (rw (later, now) (append_assoc got c rest)),
        left,
      )

  -- Where the stream ends before the buffer is full, the loop ends with the code for it, which tells
  -- a stream that was empty from one that broke off, and it has read all of the stream.
  pub recv_loop-broken :
      (pending : W → List ℕ)
      → ReadsStream p fd pending
      → (fuel size : ℕ) (got : List ℕ) (s : State W) → length got ≤ size
      → size < length got + fuel
      → length (pending s.sys) < size - length got
      → (w : W) × (recv_loop p fuel fd size got s
          ≡ ok (broken (early_end (got ++ pending s.sys))) (record s { sys = w }))
        × (pending w ≡ [])
  unfolding recv_loop
  recv_loop-broken pending r zero size got s h f k = absurd (omega arith)
  recv_loop-broken pending r (suc fuel) size got s h f k = elim (List-cases (pending s.sys)) [
    | inl e ↦
        let (read, left) = r.ended (size - length got) s.sys e in
        (
          (p.recv fd (size - length got) s.sys).1,
          rw (lt→ltb (length got) size (omega arith), read, recv_loop)
              (ap
                (λ b.
                  ok (broken (early_end b))
                    (record s { sys = (p.recv fd (size - length got) s.sys).1 }))
                (sym (append-nil got) ∙ ap (λ b. got ++ b) (sym e))),
          left,
        )
    | inr (y, ys, e) ↦
        let (x, xs, rest, read, le, now, later) =
          r.piece (size - length got) s.sys y ys (omega arith) e in
        Breaks-round pending fuel size got x xs rest s (omega arith) f k read le now later
          (recv_loop-broken pending r fuel size)
  ]
