-- ===== src/Net/Send/Wire.antt =====
-- What the send loop puts on a connection.
use lib_zdtm_sync.Prelude.{
  ℕ, zero, suc, ◌+◌, ◌-◌, ◌≤◌, ◌<◌, ◌≡◌, ◌⊎◌, refl, ap, ◌∙◌, none, some, List, [], ◌∷◌, ◌++◌,
  length, take, arith, lt→ltb, le→ltb, take_all, length-take, lt_or_ge, inl, inr, Option-cases,
}
use lib_zdtm_sync.Prelude.Int.{ℤ}
use lib_zdtm_sync.Run.{ok, ◌>>=◌, split, Returns}
use lib_zdtm_sync.Env.{State}
use lib_zdtm_sync.Platform.{Platform}
use lib_zdtm_sync.Net.Send.{send_loop}
use mathlib.Core.Path.{ap₂}

-- What a blocking send of bytes does: it takes some of the first of them, one at least, and what it
-- takes goes out, or it fails.
pub record Sends {W : Type 0} (p : Platform W) (fd : ℤ) (out : W → List ℕ) : Type 0 where
  pub some_taken : (b : List ℕ) (w : W) (k : ℕ) → 0 < length b → (p.send fd b w).0 ≡ some k → 0 < k
  pub written :
      (b : List ℕ) (w : W) (k : ℕ)
      → (p.send fd b w).0 ≡ some k
      → out (p.send fd b w).1 ≡ out w ++ take k b

-- A send that is never short and never fails.
pub record TakesAll {W : Type 0} (p : Platform W) (fd : ℤ) : Type 0 where
  pub accepted : (b : List ℕ) (w : W) → (p.send fd b w).0 ≡ some (length b)

split-take :
    (n : ℕ) (b : List ℕ) → n ≤ length b → (rest : List ℕ) × (split n b ≡ some (take n b, rest))
split-take zero b h = (b, refl)
split-take (suc n) [] h = absurd (omega arith)
split-take (suc n) (x ∷ b) h =
    let (rest, front) = split-take n b (omega arith) in (rest, rw front refl)

zero_add : (k : ℕ) → 0 + k ≡ k
zero_add k = omega arith

module _ {W : Type 0} (p : Platform W) (fd : ℤ) where
  send_loop-round :
      (fuel : ℕ) (wire : List ℕ) (total sent k : ℕ) (s : State W)
      → total ≤ length wire
      → sent < total
      → (p.send fd (take (total - sent) wire) s.sys).0 ≡ some k
      → send_loop p (suc fuel) fd wire total sent s
        ≡ send_loop p fuel fd wire total
            (sent + k)
            (record s { sys = (p.send fd (take (total - sent) wire) s.sys).1 })
  unfolding send_loop
  send_loop-round fuel wire total sent k s room h e =
      let (rest, front) = split-take (total - sent) wire (omega arith) in
      rw (lt→ltb sent total h, front, e, send_loop, ◌>>=◌) refl

  send_loop-failed :
      (fuel : ℕ) (wire : List ℕ) (total sent : ℕ) (s : State W)
      → total ≤ length wire
      → sent < total
      → (p.send fd (take (total - sent) wire) s.sys).0 ≡ none
      → send_loop p (suc fuel) fd wire total sent s
        ≡ ok none (record s { sys = (p.send fd (take (total - sent) wire) s.sys).1 })
  unfolding send_loop
  send_loop-failed fuel wire total sent s room h e =
      let (rest, front) = split-take (total - sent) wire (omega arith) in
      rw (lt→ltb sent total h, front, e, send_loop, ◌>>=◌) refl

  send_loop-done :
      (fuel : ℕ) (wire : List ℕ) (total sent : ℕ) (s : State W)
      → total ≤ sent
      → send_loop p (suc fuel) fd wire total sent s ≡ ok (some tt) s
  unfolding send_loop
  send_loop-done fuel wire total sent s h = rw (le→ltb sent total h, send_loop) refl

  -- Where the buffer has all the bytes that are to be sent and every send that does not fail takes a
  -- byte at least, the loop returns within one round more than there are bytes to send; it neither
  -- runs on nor reads outside the buffer.
  pub send_loop-Returns :
      (out : W → List ℕ)
      → Sends p fd out
      → (fuel : ℕ) (wire : List ℕ) (total sent : ℕ) (s : State W) → total ≤ length wire
      → total - sent < fuel
      → Returns (λ r t. (r ≡ none) ⊎ (r ≡ some tt)) (send_loop p fuel fd wire total sent s)
  send_loop-Returns out law zero wire total sent s room h = absurd (omega arith)
  send_loop-Returns out law (suc fuel) wire total sent s room h = elim (lt_or_ge sent total) [
    | inr full ↦ rw (send_loop-done fuel wire total sent s full) (inr refl)
    | inl more ↦
        let b = take (total - sent) wire in
        elim (Option-cases (p.send fd b s.sys).0) [
          | inl e ↦ rw (send_loop-failed fuel wire total sent s room more e) (inl refl)
          | inr (k, e) ↦
              let size : length b ≡ total - sent = length-take (total - sent) wire (omega arith) in
              let taken : 0 < k = law.some_taken b s.sys k (omega arith) e in
              rw (send_loop-round fuel wire total sent k s room more e) (
                send_loop-Returns out law fuel wire total (sent + k)
                  (record s { sys = (p.send fd b s.sys).1 }) room (omega arith))
        ]
  ]

  -- Where no send is short, one send puts all the bytes on the connection and the loop ends.
  pub send_loop-all :
      (fuel : ℕ) (wire : List ℕ) (total : ℕ) (s : State W)
      → TakesAll p fd
      → total ≡ length wire
      → 0 < length wire
      → 2 ≤ fuel
      → send_loop p fuel fd wire total 0 s
        ≡ ok (some tt) (record s { sys = (p.send fd wire s.sys).1 })
  send_loop-all zero wire total s all n h f = absurd (omega arith)
  send_loop-all (suc zero) wire total s all n h f = absurd (omega arith)
  send_loop-all (suc (suc fuel)) wire total s all n h f =
      let whole : take (total - 0) wire ≡ wire = take_all (total - 0) wire (omega arith) in
      let accepted = ap (λ b. (p.send fd b s.sys).0) whole ∙ all.accepted wire s.sys in
      send_loop-round (suc fuel) wire total 0 (length wire) s (omega arith) (omega arith) accepted
      ∙ send_loop-done fuel wire total (0 + length wire)
          (record s { sys = (p.send fd (take (total - 0) wire) s.sys).1 }) (omega arith)
      ∙ ap (λ b. ok (some tt) (record s { sys = (p.send fd b s.sys).1 })) whole

  -- Where a first send takes k bytes, fewer than all, and the second takes as many as are then missing,
  -- the loop ends as if all had gone out; but what is on the connection behind the first k bytes is
  -- the beginning of the buffer once more.
  pub send_loop-resends :
      (out : W → List ℕ) (fuel : ℕ) (wire : List ℕ) (k : ℕ) (s : State W)
      → Sends p fd out
      → 3 ≤ fuel
      → 0 < k
      → k < length wire
      → (p.send fd wire s.sys).0 ≡ some k
      → (p.send fd (take (length wire - k) wire) (p.send fd wire s.sys).1).0
        ≡ some (length wire - k)
      → (w : W) × (send_loop p fuel fd wire (length wire) 0 s ≡ ok (some tt) (record s { sys = w }))
        × (out w ≡ (out s.sys ++ take k wire) ++ take (length wire - k) wire)
  send_loop-resends out (suc (suc (suc fuel))) wire k s law f h l first second =
      let whole : take (length wire - 0) wire ≡ wire =
        take_all (length wire - 0) wire (omega arith) in
      let v = (p.send fd wire s.sys).1 in
      let b = take (length wire - k) wire in
      let w = (p.send fd b v).1 in
      let size : length b ≡ length wire - k = length-take (length wire - k) wire (omega arith) in
      let total : k + (length wire - k) ≡ length wire = omega arith in
      (
        w,
        send_loop-round (suc (suc fuel)) wire (length wire) 0 k s (omega arith) (omega arith)
              (ap (λ c. (p.send fd c s.sys).0) whole ∙ first)
            ∙ ap₂
                (λ n c.
                  send_loop p (suc (suc fuel)) fd wire (length wire) n
                    (record s { sys = (p.send fd c s.sys).1 }))
                (zero_add k) whole
            ∙ send_loop-round (suc fuel) wire (length wire) k (length wire - k)
                (record s { sys = v }) (omega arith) l second
            ∙ send_loop-done fuel wire (length wire) (k + (length wire - k)) (record s { sys = w })
                (omega arith),
        law.written b v (length wire - k) second
            ∙ ap (λ c. out v ++ c) (take_all (length wire - k) b (omega arith))
            ∙ ap (λ c. c ++ b) (law.written wire s.sys k first),
      )
  send_loop-resends out zero wire k s law f h l first second = absurd (omega arith)
  send_loop-resends out (suc zero) wire k s law f h l first second = absurd (omega arith)
  send_loop-resends out (suc (suc zero)) wire k s law f h l first second = absurd (omega arith)
