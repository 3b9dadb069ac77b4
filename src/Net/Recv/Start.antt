-- ===== src/Net/Recv/Start.antt =====
-- The first bytes that _zdtm_recv_message reads, and what it makes of them.
use lib_zdtm_sync.Prelude.{
  ℕ, ◌+◌, ◌<◌, ◌≡◌, refl, ap, ◌∙◌, false, List, [], ◌++◌, length, take, drop, arith, length-append,
}
use lib_zdtm_sync.Prelude.Int.{ℤ, pos}
use lib_zdtm_sync.Run.{ok, ◌>>=◌}
use lib_zdtm_sync.Env.{State}
use lib_zdtm_sync.Platform.{Platform}
use lib_zdtm_sync.Message.{Msg}
use lib_zdtm_sync.Msgs.{
  ack_message, rqst_message, abrt_message, is_ack_message, is_rqst_message, is_abrt_message,
}
use lib_zdtm_sync.Net.Recv.{filled, broken, recv_loop, recv_body, recv_message}
use lib_zdtm_sync.Net.Recv.Stream.{ReadsStream, recv_loop-filled, recv_loop-broken, early_end}

-- The three messages that are known by their seven bytes, and the result for each.
pub data Common : Type 0 where
  ack rqst abrt : Common

abbrev pub bytes_of : Common → List ℕ
bytes_of ack = ack_message
bytes_of rqst = rqst_message
bytes_of abrt = abrt_message

abbrev pub code_of : Common → ℤ
code_of ack = pos 1
code_of rqst = pos 2
code_of abrt = pos 3

length-bytes_of : (c : Common) → length (bytes_of c) ≡ 7
length-bytes_of ack = refl
length-bytes_of rqst = refl
length-bytes_of abrt = refl

take-bytes_of : (c : Common) (rest : List ℕ) → take 7 (bytes_of c ++ rest) ≡ bytes_of c
take-bytes_of ack rest = refl
take-bytes_of rqst rest = refl
take-bytes_of abrt rest = refl

drop-bytes_of : (c : Common) (rest : List ℕ) → drop 7 (bytes_of c ++ rest) ≡ rest
drop-bytes_of ack rest = refl
drop-bytes_of rqst rest = refl
drop-bytes_of abrt rest = refl

module _ {W : Type 0} (p : Platform W) where
  recv_message-seven :
      (msg : Msg) (c : Common) (s t : State W)
      → recv_loop p 8 s.env.connfd 7 [] s ≡ ok (filled (bytes_of c)) t
      → recv_message p msg s ≡ ok (code_of c, msg) t
  unfolding recv_message is_ack_message is_rqst_message is_abrt_message
  recv_message-seven msg ack s t e = rw (e, recv_message, ◌>>=◌) refl
  recv_message-seven msg rqst s t e = rw (e, recv_message, ◌>>=◌) refl
  recv_message-seven msg abrt s t e = rw (e, recv_message, ◌>>=◌) refl

  -- Where one of the three common messages comes first on the connection, in pieces of any size,
  -- recv_message returns its code, takes the seven bytes and leaves what is behind them, and leaves
  -- the caller's message and the rest of the state as they were.
  pub recv_message-common :
      (pending : W → List ℕ) (msg : Msg) (c : Common) (rest : List ℕ) (s : State W)
      → ReadsStream p s.env.connfd pending
      → pending s.sys ≡ bytes_of c ++ rest
      → (w : W) × (recv_message p msg s ≡ ok (code_of c, msg) (record s { sys = w }))
        × (pending w ≡ rest)
  recv_message-common pending msg c rest s r e =
      let enough : length (pending s.sys) ≡ 7 + length rest =
        ap length e
        ∙ length-append (bytes_of c) rest
        ∙ ap (λ n. n + length rest) (length-bytes_of c) in
      let (w, run, left) =
        recv_loop-filled p s.env.connfd pending r 8 7 [] s (omega arith) (omega arith)
          (omega arith) in
      (
        w,
        recv_message-seven msg c s (record s { sys = w })
            (run ∙ ap (λ b. ok (filled b) (record s { sys = w })) (rw e (take-bytes_of c rest))),
        left ∙ rw e (drop-bytes_of c rest),
      )

  recv_message-early :
      (msg : Msg) (k : ℤ) (s t : State W)
      → recv_loop p 8 s.env.connfd 7 [] s ≡ ok (broken k) t
      → recv_message p msg s ≡ ok (k, msg) t
  unfolding recv_message
  recv_message-early msg k s t e = rw (e, recv_message, ◌>>=◌) refl

  -- Where the connection ends within the first seven bytes, recv_message returns -1 if none came and
  -- -2 if some did, and leaves the message as it was.
  pub recv_message-short :
      (pending : W → List ℕ) (msg : Msg) (s : State W)
      → ReadsStream p s.env.connfd pending
      → length (pending s.sys) < 7
      → (w : W) × (recv_message p msg s
          ≡ ok (early_end (pending s.sys), msg) (record s { sys = w }))
        × (pending w ≡ [])
  recv_message-short pending msg s r h =
      let (w, run, left) =
        recv_loop-broken p s.env.connfd pending r 8 7 [] s (omega arith) (omega arith)
          (omega arith) in
      (w, recv_message-early msg (early_end (pending s.sys)) s (record s { sys = w }) run, left)

  pub recv_message-header :
      (msg : Msg) (start header : List ℕ) (s t u : State W)
      → recv_loop p 8 s.env.connfd 7 [] s ≡ ok (filled start) t
      → is_ack_message start ≡ false
      → is_rqst_message start ≡ false
      → is_abrt_message start ≡ false
      → recv_loop p 16 s.env.connfd 15 start t ≡ ok (filled header) u
      → recv_message p msg s ≡ recv_body p msg header u
  unfolding recv_message
  recv_message-header msg start header s t u e a q b f =
      rw (e, a, q, b, f, recv_message, ◌>>=◌) refl
