-- ===== src/Net/Recv/Store.antt =====
-- The body of a general message, from the two buffers that it is read into to the message.
use lib_zdtm_sync.Prelude.{
  ℕ, suc, ◌+◌, ◌-◌, ◌<◌, ◌≡◌, refl, ap, ◌∙◌, some, List, [], ◌++◌, length, take, drop, arith,
  length-append, lt→ltb,
}
use lib_zdtm_sync.Prelude.Int.{ℤ, pos}
use lib_zdtm_sync.Bytes.{load16}
use lib_zdtm_sync.Run.{ok, ◌>>=◌, split, split_front}
use lib_zdtm_sync.Env.{State}
use lib_zdtm_sync.Platform.{Platform}
use lib_zdtm_sync.Message.{Msg, zero_msg}
use lib_zdtm_sync.Msgs.Parse.{parse_raw_msg}
use lib_zdtm_sync.Platform.Blocks.{after_malloc}
use mathlib.Core.List.{append_assoc}
use lib_zdtm_sync.Requests.{pointee}
use lib_zdtm_sync.Log.Apart.{LogsApart, dump_msg_log-apart}
use lib_zdtm_sync.Net.Recv.{filled, recv_loop, recv_body, read_body, finish_message, store_body}
use lib_zdtm_sync.Net.Recv.Stream.{ReadsStream, recv_loop-filled}
use lib_zdtm_sync.Net.Recv.Frame.{take-front, drop-front, cont_of, body_of}

module _ {W : Type 0} (p : Platform W) where
  -- A message whose dump reads nothing outside it.
  pub record IsDumped (m : Msg) : Type 0 where
    pub header_size : length m.header ≡ 13
    pub content_size : length (pointee m.raw_content) ≡ m.cont_size

  -- One of the loops, where the bytes come that it waits for.
  pub recv_loop-piece :
      (pending : W → List ℕ) (fd : ℤ) (fuel size : ℕ) (got c rest : List ℕ) (s : State W)
      → ReadsStream p fd pending
      → pending s.sys ≡ c ++ rest
      → size ≡ length got + length c
      → fuel ≡ suc size
      → (w : W) × (recv_loop p fuel fd size got s ≡ ok (filled (got ++ c)) (record s { sys = w }))
        × (pending w ≡ rest)
  recv_loop-piece pending fd fuel size got c rest s r e h f =
      let total : length (pending s.sys) ≡ length c + length rest =
        ap length e ∙ length-append c rest in
      let missing : length c ≡ size - length got = omega arith in
      let (w, run, left) =
        recv_loop-filled p fd pending r fuel size got s (omega arith) (omega arith) (omega arith) in
      (
        w,
        run
            ∙ ap (λ b. ok (filled (got ++ b)) (record s { sys = w }))
                (rw e (take-front (size - length got) c rest missing)),
        left ∙ rw e (drop-front (size - length got) c rest missing),
      )

  pub store_body-parsed :
      (pending : W → List ℕ) (header t c k block : List ℕ) (n body sum : ℕ) (out : Msg)
      (s u : State W)
      → length t ≡ 3
      → 0 < n
      → cont_of body ≡ n
      → length c ≡ n
      → LogsApart p pending
      → IsDumped out
      → (p.malloc n s.sys).0 ≡ some block
      → parse_raw_msg p
          (record zero_msg {
            header = take 13 header;
            mtype = t;
            raw_content = some c;
            body_size = body;
            check_sum = sum;
            cont_size = n;
          })
          (record (after_malloc p n s) { blocks = s.blocks + 1 - 1 })
        ≡ ok (pos 0, out) u
      → (w : W) × (store_body p zero_msg header ((t ++ c) ++ k) body sum s
          ≡ ok (pos 0, out) (record u { sys = w }))
        × (pending w ≡ pending u.sys)
  unfolding store_body finish_message
  store_body-parsed pending header t c k block n body sum out s u ht some_c cont hc log d alloc
        parse =
      let (r, w, dump, kept) =
        dump_msg_log-apart p pending out u log d.header_size d.content_size in
      let front : split 3 ((t ++ c) ++ k) ≡ some (t, c ++ k) =
        ap (split 3) (append_assoc t c k) ∙ split_front 3 t (c ++ k) ht in
      (
        w,
        rw
            (
              front,
              cont,
              lt→ltb 0 n some_c,
              alloc,
              cont,
              split_front n c k hc,
              cont,
              parse,
              dump,
              store_body,
              ◌>>=◌,
            )
            refl,
        kept,
      )

  pub store_body-empty :
      (pending : W → List ℕ) (header t k : List ℕ) (sum : ℕ) (out : Msg) (s u : State W)
      → length t ≡ 3
      → LogsApart p pending
      → IsDumped out
      → parse_raw_msg p
          (record zero_msg { header = take 13 header; mtype = t; body_size = 3; check_sum = sum })
          (record s { blocks = s.blocks - 1 })
        ≡ ok (pos 0, out) u
      → (w : W) × (store_body p zero_msg header ((t ++ []) ++ k) 3 sum s
          ≡ ok (pos 0, out) (record u { sys = w }))
        × (pending w ≡ pending u.sys)
  unfolding store_body finish_message
  store_body-empty pending header t k sum out s u ht log d parse =
      let (r, w, dump, kept) =
        dump_msg_log-apart p pending out u log d.header_size d.content_size in
      let front : split 3 ((t ++ []) ++ k) ≡ some (t, k) =
        ap (split 3) (append_assoc t [] k) ∙ split_front 3 t k ht in
      (w, rw (front, parse, dump, store_body, ◌>>=◌) refl, kept)

  pub recv_body-stored :
      (header buff block : List ℕ) (sum : ℕ) (s t : State W)
      → (p.malloc (body_of p.order header + 2) s.sys).0 ≡ some block
      → recv_loop p
          (body_of p.order header + 3)
          s.env.connfd
          (body_of p.order header + 2)
          []
          (after_malloc p (body_of p.order header + 2) s)
        ≡ ok (filled buff) t
      → load16 p.order (drop (body_of p.order header) buff) ≡ sum
      → recv_body p zero_msg header s
        ≡ store_body p zero_msg header buff (body_of p.order header) sum t
  unfolding recv_body read_body
  recv_body-stored header buff block sum s t alloc loop f =
      rw (alloc, loop, recv_body, read_body, ◌>>=◌)
        (ap (λ k. store_body p zero_msg header buff (body_of p.order header) k t) f)
