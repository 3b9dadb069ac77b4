-- ===== src/Net/Format.antt =====
-- A message that is received has the parameter format that a parsed message has.
use lib_zdtm_sync.Prelude.{
  ℕ, ◌+◌, none, some, List, [], drop, ◌≡◌, false, arith, Option-cases, inl, inr, refl, sym, ◌∙◌,
}
use lib_zdtm_sync.Prelude.Int.{ℤ, negsuc, nonzero}
use lib_zdtm_sync.Run.{M, ok, pure, ◌>>=◌}
use lib_zdtm_sync.Bytes.{load16}
use lib_zdtm_sync.Env.{State, free}
use lib_zdtm_sync.Platform.{Platform}
use lib_zdtm_sync.Message.{Msg, zero_msg, msg_hdr_size}
use lib_zdtm_sync.Msgs.Format.{HasFormat, zero_msg-HasFormat, bind-Formats, parse_raw_msg-HasFormat}
use lib_zdtm_sync.Platform.Blocks.{after_malloc}
use lib_zdtm_sync.Net.Recv.{
  Filled, filled, broken, recv_loop, finish_message, store_body, read_body, recv_body, recv_message,
}
use lib_zdtm_sync.Net.Wrapped.{wrapped_recv_message}

module _ {W : Type 0} (p : Platform W) where
  finish_message-HasFormat :
      (m : Msg) (s t : State W) (r : ℤ × Msg)
      → finish_message p m s ≡ ok r t
      → HasFormat m.cont
      → nonzero r.0 ≡ false
      → HasFormat r.1.cont
  unfolding finish_message
  finish_message-HasFormat m s t r e k h = grind (arith, parse_raw_msg-HasFormat p m k)

  store_body-HasFormat :
      (m : Msg) (header buff : List ℕ) (body sum : ℕ) (s t : State W) (r : ℤ × Msg)
      → store_body p m header buff body sum s ≡ ok r t
      → HasFormat m.cont
      → nonzero r.0 ≡ false
      → HasFormat r.1.cont
  unfolding store_body
  store_body-HasFormat m header buff body sum s t r e k h = grind (arith, finish_message-HasFormat)

  filled_body-HasFormat :
      (m : Msg) (header b : List ℕ) (n : ℕ) (body : Filled) (s t : State W) (r : ℤ × Msg)
      → (elim body as (λ _. M (State W) (ℤ × Msg)) [
        | broken r ↦ do _ ← free (some b); pure (r, m)
        | filled buff ↦ elim m.raw_content [
          | some _ ↦ do _ ← free (some b); pure (negsuc 5, m)
          | none ↦ store_body p m header buff n (load16 p.order (drop n buff))
        ]
      ])
          s
        ≡ ok r t
      → HasFormat m.cont
      → nonzero r.0 ≡ false
      → HasFormat r.1.cont
  unfolding store_body
  filled_body-HasFormat m header b n (broken k) s t r e h z = ground arith
  filled_body-HasFormat m header b n (filled buff) s t r e h z =
      let format = store_body-HasFormat m header buff n (load16 p.order (drop n buff)) s t r in
      elim (Option-cases m.raw_content) [
        | inl g ↦ format (sym (rw g refl) ∙ e) h z
        | inr (c, g) ↦ ground (arith, g)
      ]

  read_body-HasFormat :
      (m : Msg) (header b : List ℕ) (n : ℕ) (fd : ℤ) (s t : State W) (r : ℤ × Msg)
      → read_body p m header b n fd s ≡ ok r t
      → HasFormat m.cont
      → nonzero r.0 ≡ false
      → HasFormat r.1.cont
  unfolding read_body
  read_body-HasFormat m header b n fd s t r e h z =
      bind-Formats (recv_loop p (n + 3) fd (n + 2) []) _
        (λ body s t r e z. filled_body-HasFormat m header b n body s t r e h z) s t r e z

  recv_body-HasFormat :
      (m : Msg) (header : List ℕ) (s t : State W) (r : ℤ × Msg)
      → recv_body p m header s ≡ ok r t
      → HasFormat m.cont
      → nonzero r.0 ≡ false
      → HasFormat r.1.cont
  unfolding recv_body
  recv_body-HasFormat m header s t r e h z =
      let n = load16 p.order (drop msg_hdr_size header) in
      elim (Option-cases (p.malloc (n + 2) s.sys).0) [
        | inl g ↦ ground (arith, g)
        | inr (b, g) ↦
            read_body-HasFormat m header b n s.env.connfd (after_malloc p (n + 2) s) t r
              (sym (rw (g, recv_body, ◌>>=◌) refl) ∙ e) h z
      ]

  behind_header-HasFormat :
      (m : Msg) (rest : Filled) (s t : State W) (r : ℤ × Msg)
      → (elim rest as (λ _. M (State W) (ℤ × Msg)) [
        | broken r ↦ pure (r, m)
        | filled header ↦ recv_body p m header
      ])
          s
        ≡ ok r t
      → HasFormat m.cont
      → nonzero r.0 ≡ false
      → HasFormat r.1.cont
  behind_header-HasFormat m (broken k) s t r e h z = ground arith
  behind_header-HasFormat m (filled header) s t r e h z = recv_body-HasFormat m header s t r e h z

  recv_message-HasFormat :
      (m : Msg) (s t : State W) (r : ℤ × Msg)
      → recv_message p m s ≡ ok r t
      → HasFormat m.cont
      → nonzero r.0 ≡ false
      → HasFormat r.1.cont
  unfolding recv_message
  recv_message-HasFormat m s t r e h z = grind (arith, behind_header-HasFormat)

  pub wrapped_recv_message-HasFormat :
      (s t : State W) (r : ℤ × Msg)
      → wrapped_recv_message p zero_msg s ≡ ok r t
      → nonzero r.0 ≡ false
      → HasFormat r.1.cont
  unfolding wrapped_recv_message
  wrapped_recv_message-HasFormat s t r e z =
      grind (arith, recv_message-HasFormat zero_msg, zero_msg-HasFormat)
