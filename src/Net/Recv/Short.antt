-- ===== src/Net/Recv/Short.antt =====
-- A body size that is too small for the type of a message.
use lib_zdtm_sync.Prelude.{
  ℕ, ◌+◌, ◌-◌, ◌%◌, ◌<◌, ◌≡◌, ◌≢◌, refl, sym, ap, ◌∙◌, List, [], ◌∷◌, ◌++◌, length, drop, arith,
  lt→ltb, length-append,
}
use mathlib.Core.List.{append_assoc}
use lib_zdtm_sync.Bytes.{little, mem16, load16}
use lib_zdtm_sync.Bytes.Order.{load16-mem16}
use lib_zdtm_sync.Run.{fault, split_short, ◌>>=◌}
use lib_zdtm_sync.Env.{State}
use lib_zdtm_sync.Platform.{Platform, NeverFull}
use lib_zdtm_sync.Message.{Msg, zero_msg}
use lib_zdtm_sync.Platform.Blocks.{malloc-some, after_malloc}
use lib_zdtm_sync.Net.Recv.{store_body, recv_message}
use lib_zdtm_sync.Net.Recv.Stream.{ReadsStream}
use lib_zdtm_sync.Net.Recv.Start.{Common, bytes_of, recv_message-header}
use lib_zdtm_sync.Net.Recv.Frame.{IsFrame, empty_frame, is-false, thirteen, drop-front, body_of}
use lib_zdtm_sync.Net.Recv.Store.{recv_loop-piece, recv_body-stored}
use lib_zdtm_sync.Net.Recv.Whole.{Undisturbed}

module _ {W : Type 0} (p : Platform W) where
  -- The type does not fit into the buffer, or the content size wraps to 65534 or more.
  store_body-short :
      (msg : Msg) (header buff : List ℕ) (body sum : ℕ) (s : State W)
      → NeverFull p
      → body < 3
      → length buff ≡ body + 2
      → store_body p msg header buff body sum s ≡ fault
  unfolding store_body
  store_body-short msg header [] body sum s full h e = refl
  store_body-short msg header (a ∷ []) body sum s full h e = refl
  store_body-short msg header (a ∷ (b ∷ [])) body sum s full h e = refl
  store_body-short msg header (a ∷ (b ∷ (c ∷ rest))) body sum s full h e =
      let (block, alloc) = malloc-some p full ((body + 65536 - 3) % 65536) s.sys in
      rw
        (
          lt→ltb 0 ((body + 65536 - 3) % 65536) (omega arith),
          alloc,
          split_short ((body + 65536 - 3) % 65536) rest (omega arith),
          store_body,
          ◌>>=◌,
        )
        refl

  -- Where a device sends a header that does not begin like a common message, a body size below 3
  -- and as many bytes as a body of that size and its checksum have, in pieces of any size, memory
  -- does not run out, and malloc takes nothing from the connection, _zdtm_recv_message reads
  -- outside the buffer of body and checksum. The log is as for a whole message: snprintf prints
  -- what it documents, and writing to it does not touch what is to come.
  pub recv_message-short_body :
      (pending : W → List ℕ) (start tail buff rest : List ℕ) (body : ℕ) (s : State W)
      → length start ≡ 7
      → length tail ≡ 6
      → ((c : Common) → start ≢ bytes_of c)
      → body < 3
      → length buff ≡ body + 2
      → ReadsStream p s.env.connfd pending
      → Undisturbed p pending
      → pending s.sys ≡ start ++ ((tail ++ mem16 little body) ++ (buff ++ rest))
      → recv_message p zero_msg s ≡ fault
  recv_message-short_body pending start tail buff rest body s a b uncommon h size r u e =
      let f = empty_frame start tail (0 ∷ 0 ∷ 0 ∷ []) 0 in
      let i : IsFrame f = record {
        start_size = a;
        tail_size = b;
        type_size = refl;
        content_size = omega arith;
        check_sum_size = omega arith;
        uncommon = uncommon;
      } in
      let size_bytes = mem16 little body in
      let header = start ++ (tail ++ size_bytes) in
      let n = body_of p.order header in
      let same : n ≡ body =
        ap (λ b. load16 p.order (drop 13 b)) (sym (append_assoc start tail size_bytes))
        ∙ ap (load16 p.order) (drop-front 13 (start ++ tail) size_bytes (thirteen f i))
        ∙ load16-mem16 p.order body (omega arith) in
      let eight : length (tail ++ size_bytes) ≡ 8 =
        length-append tail size_bytes ∙ ap (λ k. k + 2) b in
      let (v, run, left) =
        recv_loop-piece p pending s.env.connfd 8 7 [] start ((tail ++ size_bytes) ++ (buff ++ rest))
          s r e (omega arith) refl in
      let (w, run', left') =
        recv_loop-piece p pending s.env.connfd 16 15 start (tail ++ size_bytes) (buff ++ rest)
          (record s { sys = v }) r left (rw (eight, a) refl) refl in
      let (ack, rqst, abrt) = is-false f i in
      let t : State W = record s { sys = w } in
      let (block, alloc) = malloc-some p u.full (n + 2) w in
      let (x, loop, _) =
        recv_loop-piece p pending s.env.connfd (n + 3) (n + 2) [] buff rest
          (after_malloc p (n + 2) t) r (u.kept (n + 2) w ∙ left') (omega arith) (omega arith) in
      let got : State W = record s { sys = x; blocks = s.blocks + 1 } in
      recv_message-header p zero_msg start header s (record s { sys = v }) t run ack rqst abrt run'
      ∙ recv_body-stored p header buff block (load16 p.order (drop n buff)) t got alloc loop refl
      ∙ store_body-short zero_msg header buff n (load16 p.order (drop n buff)) got u.full
          (omega arith) (omega arith)
