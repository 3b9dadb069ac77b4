-- ===== src/Proto/Reply.antt =====
-- What the exchange of a request for a reply can end with.
use lib_zdtm_sync.Prelude.{ℕ, ◌+◌, ◌≡◌, ◌⊎◌, refl, sym, Bool, true, false, inl, inr, List, not}
use lib_zdtm_sync.Prelude.Int.{ℤ, negsuc, nonzero}
use lib_zdtm_sync.Run.{Ends, Ends-bind, Ends-any, M, pure, return_if, ◌>>=◌, ◌>>◌}
use lib_zdtm_sync.Env.{State}
use lib_zdtm_sync.Platform.{Platform}
use lib_zdtm_sync.Message.{Msg, is, zero_msg}
use lib_zdtm_sync.Msgs.{clean_message}
use lib_zdtm_sync.Net.Wrapped.{wrapped_send_message, wrapped_recv_message}
use lib_zdtm_sync.Proto.{Answer, reply, refused, await, ask}

-- An answer that the caller can rely on.
abbrev pub IsAnswer : ℕ → List ℕ → Answer → Type 0
IsAnswer base mtype (reply rmsg) = is mtype rmsg ≡ true
IsAnswer base mtype (refused r) =
    (r ≡ negsuc base) ⊎ ((r ≡ negsuc (base + 1)) ⊎ (r ≡ negsuc (base + 2)))

not-false : (t : Bool) → not t ≡ false → t ≡ true
not-false true h = refl
not-false false h = sym h

module _ {W : Type 0} (p : Platform W) where
  pub guarded :
      {A : Type 0} (Q : A → State W → Type 0) (t : Bool) (a b : M (State W) A) (s : State W)
      → (t ≡ true → Ends Q (a s))
      → (t ≡ false → Ends Q (b s))
      → Ends Q ((return_if t a >> b) s)
  guarded Q true a b s h k = h refl
  guarded Q false a b s h k = k refl

  pub cleaned :
      {A : Type 0} (Q : A → State W → Type 0) (m : Msg) (a : A) (s : State W)
      → ((t : State W) → Q a t)
      → Ends Q ((clean_message m >>= λ _. pure a) s)
  cleaned Q m a s h =
      Ends-bind (λ _ _. Unit) Q (clean_message m) (λ _. pure a) s (Ends-any (clean_message m s))
        (λ _ t _. h t)

  -- Whenever an exchange returns, it has a message of the type awaited, or it was refused with one
  -- of the three codes from -(base + 1) on.
  pub ask-IsAnswer :
      (base : ℕ) (msg : Msg) (mtype : List ℕ) (s : State W)
      → Ends (λ a _. IsAnswer base mtype a) (ask p base msg mtype s)
  unfolding ask await
  ask-IsAnswer base msg mtype s =
      let Q : Answer → State W → Type 0 = λ a _. IsAnswer base mtype a in
      let stop : ℕ → Msg → M (State W) Answer =
        λ n rmsg. clean_message rmsg >>= λ _. pure (refused (negsuc n)) in
      let typed : Msg → M (State W) Answer =
        λ rmsg. return_if (not (is mtype rmsg)) (stop (base + 2) rmsg) >> pure (reply rmsg) in
      let received : ℤ × Msg → M (State W) Answer =
        λ x. return_if (nonzero x.0) (stop (base + 1) x.1) >> typed x.1 in
      let sent : ℤ × Msg → M (State W) Answer = λ x.
        return_if (nonzero x.0) (pure (refused (negsuc base)))
        >> (wrapped_recv_message p zero_msg >>= received) in
      Ends-bind (λ _ _. Unit) Q (wrapped_send_message p msg) sent s
        (Ends-any (wrapped_send_message p msg s))
        (λ x t _.
          guarded Q (nonzero x.0) (pure (refused (negsuc base)))
            (wrapped_recv_message p zero_msg >>= received) t (λ _. inl refl)
            (λ _.
              Ends-bind (λ _ _. Unit) Q (wrapped_recv_message p zero_msg) received t
                (Ends-any (wrapped_recv_message p zero_msg t))
                (λ y u _.
                  guarded Q (nonzero y.0) (stop (base + 1) y.1) (typed y.1) u
                    (λ _. cleaned Q y.1 (refused (negsuc (base + 1))) u (λ _. inr (inl refl)))
                    (λ _.
                      guarded Q (not (is mtype y.1)) (stop (base + 2) y.1) (pure (reply y.1)) u
                        (λ _. cleaned Q y.1 (refused (negsuc (base + 2))) u (λ _. inr (inr refl)))
                        (λ e. not-false (is mtype y.1) e)))))
