-- ===== src/Net/KeepsEnv.antt =====
-- Sending and receiving does not change the environment.
use lib_zdtm_sync.Prelude.{
  ℕ, zero, suc, ◌+◌, ◌-◌, Option, List, [], ◌∷◌, ◌++◌, length, drop, none, some, ltb, ◌≡◌, refl,
  sym, ◌∙◌, arith, Bool-cases, Option-cases, inl, inr,
}
use lib_zdtm_sync.Prelude.Int.{ℤ, negsuc}
use lib_zdtm_sync.Run.{M, ok, pure, ◌>>=◌, split}
use lib_zdtm_sync.Bytes.{load16}
use lib_zdtm_sync.Env.{State, free, bind-env}
use lib_zdtm_sync.Platform.{Platform}
use lib_zdtm_sync.Message.{Msg, msg_hdr_size}
use lib_zdtm_sync.Log.KeepsEnv.{log_error-env, dump_msg_log-env}
use lib_zdtm_sync.Msgs.KeepsEnv.{clean_message-env, prepare_message-env, parse_raw_msg-env}
use lib_zdtm_sync.Platform.Blocks.{after_malloc}
use lib_zdtm_sync.Net.Send.{
  send_loop, send_comm_message_to, send_ack_message, send_rqst_message, wire_bytes, send_message_to,
  send_message,
}
use lib_zdtm_sync.Net.Recv.{
  Filled, filled, broken, recv_loop, finish_message, store_body, read_body, recv_body, recv_message,
}
use lib_zdtm_sync.Net.Wrapped.{wrapped_send_message, wrapped_recv_message}

module _ {W : Type 0} (p : Platform W) where
  send_loop-env :
      (fuel : ℕ) (fd : ℤ) (wire : List ℕ) (total sent : ℕ) (s t : State W) (r : Option (Unit {0}))
      → send_loop p fuel fd wire total sent s ≡ ok r t
      → t.env ≡ s.env
  unfolding send_loop
  send_loop-env zero fd wire total sent s t r e = ground arith
  send_loop-env (suc fuel) fd wire total sent s t r e = elim (Bool-cases (ltb sent total)) [
    | inr h ↦ ground (arith, h)
    | inl h ↦ elim (Option-cases (split (total - sent) wire)) [
      | inl k ↦ ground (arith, h, k)
      | inr ((bytes, rest), k) ↦ elim (Option-cases (p.send fd bytes s.sys).0) [
        | inl g ↦ ground (arith, h, k, g)
        | inr (n, g) ↦
            send_loop-env fuel fd wire total (sent + n)
              (record s { sys = (p.send fd bytes s.sys).1 }) t r
              (sym (rw (h, k, g, send_loop, ◌>>=◌) refl) ∙ e)
      ]
    ]
  ]

  send_comm_message_to-env :
      (fd : ℤ) (wire : List ℕ) (s t : State W) (r : ℤ)
      → send_comm_message_to p fd wire s ≡ ok r t
      → t.env ≡ s.env
  unfolding send_comm_message_to
  send_comm_message_to-env fd wire s t r e = grind (arith, send_loop-env)

  send_ack_message-env : (s t : State W) (r : ℤ) → send_ack_message p s ≡ ok r t → t.env ≡ s.env
  unfolding send_ack_message
  send_ack_message-env s t r e = grind (arith, send_comm_message_to-env)

  send_rqst_message-env : (s t : State W) (r : ℤ) → send_rqst_message p s ≡ ok r t → t.env ≡ s.env
  unfolding send_rqst_message
  send_rqst_message-env s t r e = grind (arith, send_comm_message_to-env)

  wire_bytes-env :
      (m : Msg) (b : List ℕ) (s t : State W) (r : List ℕ)
      → wire_bytes p m b s ≡ ok r t
      → t.env ≡ s.env
  unfolding wire_bytes
  wire_bytes-env m b s t r e = ground arith

  pub send_message_to-env :
      (m : Msg) (fd : ℤ) (s t : State W) (r : ℤ × Msg)
      → send_message_to p m fd s ≡ ok r t
      → t.env ≡ s.env
  unfolding send_message_to
  send_message_to-env m fd s t r e =
      grind (arith, prepare_message-env, clean_message-env, wire_bytes-env, send_loop-env)

  pub send_message-env :
      (m : Msg) (s t : State W) (r : ℤ × Msg) → send_message p m s ≡ ok r t → t.env ≡ s.env
  unfolding send_message
  send_message-env m s t r e = grind (arith, dump_msg_log-env, send_message_to-env)

  recv_loop-env :
      (fuel : ℕ) (fd : ℤ) (size : ℕ) (got : List ℕ) (s t : State W) (r : Filled)
      → recv_loop p fuel fd size got s ≡ ok r t
      → t.env ≡ s.env
  unfolding recv_loop
  recv_loop-env zero fd size got s t r e = ground arith
  recv_loop-env (suc fuel) fd size got s t r e = elim (Bool-cases (ltb (length got) size)) [
    | inr h ↦ ground (arith, h)
    | inl h ↦ elim (Option-cases (p.recv fd (size - length got) s.sys).0) [
      | inl g ↦ ground (arith, h, g)
      | inr ([], g) ↦ ground (arith, h, g)
      | inr (x ∷ xs, g) ↦ elim (Bool-cases (ltb (size - length got) (length (x ∷ xs)))) [
        | inl l ↦ ground (arith, h, g, l)
        | inr l ↦
            recv_loop-env fuel fd size (got ++ (x ∷ xs))
              (record s { sys = (p.recv fd (size - length got) s.sys).1 }) t r
              (sym (rw (h, g, l, recv_loop) refl) ∙ e)
      ]
    ]
  ]

  finish_message-env :
      (m : Msg) (s t : State W) (r : ℤ × Msg) → finish_message p m s ≡ ok r t → t.env ≡ s.env
  unfolding finish_message
  finish_message-env m s t r e = grind (arith, parse_raw_msg-env, dump_msg_log-env)

  store_body-env :
      (m : Msg) (header buff : List ℕ) (body sum : ℕ) (s t : State W) (r : ℤ × Msg)
      → store_body p m header buff body sum s ≡ ok r t
      → t.env ≡ s.env
  unfolding store_body
  store_body-env m header buff body sum s t r e = grind (arith, finish_message-env)

  filled_body-env :
      (m : Msg) (header b : List ℕ) (n : ℕ) (body : Filled) (s t : State W) (r : ℤ × Msg)
      → (elim body as (λ _. M (State W) (ℤ × Msg)) [
        | broken r ↦ do _ ← free (some b); pure (r, m)
        | filled buff ↦ elim m.raw_content [
          | some _ ↦ do _ ← free (some b); pure (negsuc 5, m)
          | none ↦ store_body p m header buff n (load16 p.order (drop n buff))
        ]
      ])
          s
        ≡ ok r t
      → t.env ≡ s.env
  unfolding store_body
  filled_body-env m header b n (broken k) s t r e = ground arith
  filled_body-env m header b n (filled buff) s t r e =
      let kept = store_body-env m header buff n (load16 p.order (drop n buff)) s t r in
      elim (Option-cases m.raw_content) [
        | inl g ↦ kept (sym (rw g refl) ∙ e)
        | inr (c, g) ↦ ground (arith, g)
      ]

  read_body-env :
      (m : Msg) (header b : List ℕ) (n : ℕ) (fd : ℤ) (s t : State W) (r : ℤ × Msg)
      → read_body p m header b n fd s ≡ ok r t
      → t.env ≡ s.env
  unfolding read_body
  read_body-env m header b n fd =
      bind-env _ _ (recv_loop-env (n + 3) fd (n + 2) []) (filled_body-env m header b n)

  recv_body-env :
      (m : Msg) (header : List ℕ) (s t : State W) (r : ℤ × Msg)
      → recv_body p m header s ≡ ok r t
      → t.env ≡ s.env
  unfolding recv_body
  recv_body-env m header s t r e =
      let n = load16 p.order (drop msg_hdr_size header) in
      elim (Option-cases (p.malloc (n + 2) s.sys).0) [
        | inl g ↦ ground (arith, g)
        | inr (b, g) ↦
            read_body-env m header b n s.env.connfd (after_malloc p (n + 2) s) t r
              (sym (rw (g, recv_body, ◌>>=◌) refl) ∙ e)
      ]

  behind_header-env :
      (m : Msg) (rest : Filled) (s t : State W) (r : ℤ × Msg)
      → (elim rest as (λ _. M (State W) (ℤ × Msg)) [
        | broken r ↦ pure (r, m)
        | filled header ↦ recv_body p m header
      ])
          s
        ≡ ok r t
      → t.env ≡ s.env
  behind_header-env m (broken k) s t r e = ground arith
  behind_header-env m (filled header) s t r e = recv_body-env m header s t r e

  pub recv_message-env :
      (m : Msg) (s t : State W) (r : ℤ × Msg) → recv_message p m s ≡ ok r t → t.env ≡ s.env
  unfolding recv_message
  recv_message-env m s t r e = grind (arith, recv_loop-env, behind_header-env)

  pub wrapped_send_message-env :
      (m : Msg) (s t : State W) (r : ℤ × Msg) → wrapped_send_message p m s ≡ ok r t → t.env ≡ s.env
  unfolding wrapped_send_message
  wrapped_send_message-env m s t r e =
      grind (arith, recv_message-env, send_message-env, clean_message-env)

  pub wrapped_recv_message-env :
      (m : Msg) (s t : State W) (r : ℤ × Msg) → wrapped_recv_message p m s ≡ ok r t → t.env ≡ s.env
  unfolding wrapped_recv_message
  wrapped_recv_message-env m s t r e =
      grind (arith, send_rqst_message-env, send_ack_message-env, recv_message-env, log_error-env)
