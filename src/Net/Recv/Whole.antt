-- ===== src/Net/Recv/Whole.antt =====
-- A whole general message as _zdtm_recv_message reads it: header, body size, type, content, checksum.
use lib_zdtm_sync.Prelude.{
  ℕ, ◌+◌, ◌-◌, ◌<◌, ◌≡◌, refl, sym, ap, ◌∙◌, List, [], ◌∷◌, ◌++◌, length, drop, arith,
  length-append,
}
use lib_zdtm_sync.Prelude.Int.{pos}
use lib_zdtm_sync.Bytes.{little, mem16, load16}
use lib_zdtm_sync.Run.{ok}
use lib_zdtm_sync.Env.{State}
use lib_zdtm_sync.Platform.{Platform, NeverFull}
use lib_zdtm_sync.Message.{Msg, zero_msg}
use lib_zdtm_sync.Msgs.Parse.{parse_raw_msg}
use lib_zdtm_sync.Platform.Blocks.{malloc-some, after_malloc, after_mallocs, after_mallocs-blocks}
use mathlib.Core.List.{append_assoc}
use lib_zdtm_sync.Net.Recv.{recv_body, recv_message, store_body}
use lib_zdtm_sync.Net.Recv.Stream.{ReadsStream}
use lib_zdtm_sync.Net.Recv.Store.{
  IsDumped, recv_loop-piece, store_body-parsed, store_body-empty, recv_body-stored,
}
use lib_zdtm_sync.Net.Recv.Start.{recv_message-header}
use lib_zdtm_sync.Log.Apart.{LogsApart}
use lib_zdtm_sync.Net.Recv.Frame.{
  Frame, empty_frame, IsFrame, bytes, unparsed, is-false, body_of-header, length-buff,
  check_sum-buff, front-header, cont_of-content, body_of, header_of, buff_of,
}

module _ {W : Type 0} (p : Platform W) where
  -- Memory does not run out, and neither malloc nor the log takes anything from the connection.
  pub record Undisturbed (pending : W → List ℕ) : Type 0 where
    pub full : NeverFull p
    pub kept : (n : ℕ) (w : W) → pending (p.malloc n w).1 ≡ pending w
    pub logs : LogsApart p pending

  pub after_mallocs-pending :
      (pending : W → List ℕ) (ns : List ℕ) (s : State W)
      → Undisturbed pending
      → pending (after_mallocs p ns s).sys ≡ pending s.sys
  after_mallocs-pending pending [] s u = refl
  after_mallocs-pending pending (n ∷ ns) s u =
      after_mallocs-pending pending ns (after_malloc p n s) u ∙ u.kept n s.sys

  -- The header and the size, behind the first seven bytes.
  recv_message-body :
      (pending : W → List ℕ) (f : Frame) (rest : List ℕ) (s : State W)
      → IsFrame f
      → ReadsStream p s.env.connfd pending
      → pending s.sys ≡ bytes f ++ rest
      → (w : W) × (recv_message p zero_msg s
          ≡ recv_body p zero_msg
              (f.start ++ (f.tail ++ mem16 little (3 + length f.content)))
              (record s { sys = w }))
        × (pending w ≡ ((f.mtype ++ f.content) ++ mem16 little f.check_sum) ++ rest)
  recv_message-body pending f rest s i r e =
      let size_bytes = mem16 little (3 + length f.content) in
      let behind = ((f.mtype ++ f.content) ++ mem16 little f.check_sum) ++ rest in
      let (v, run, left) =
        recv_loop-piece p pending s.env.connfd 8 7 [] f.start ((f.tail ++ size_bytes) ++ behind) s r
          (e
            ∙ append_assoc f.start _ rest
            ∙ ap (λ b. f.start ++ b) (append_assoc (f.tail ++ size_bytes) _ rest))
          (omega (arith, i.start_size)) refl in
      let tail : length (f.tail ++ size_bytes) ≡ 8 =
        length-append f.tail size_bytes ∙ ap (λ n. n + 2) i.tail_size in
      let (w, run', left') =
        recv_loop-piece p pending s.env.connfd 16 15 f.start (f.tail ++ size_bytes) behind
          (record s { sys = v }) r left (rw (tail, i.start_size) refl) refl in
      let (a, q, b) = is-false f i in
      (
        w,
        recv_message-header p zero_msg f.start _ s (record s { sys = v }) (record s { sys = w }) run
            a q b run',
        left',
      )

  -- The body too: what is left is to take it apart.
  recv_message-stored :
      (pending : W → List ℕ) (f : Frame) (rest : List ℕ) (s : State W)
      → IsFrame f
      → ReadsStream p s.env.connfd pending
      → Undisturbed pending
      → pending s.sys ≡ bytes f ++ rest
      → (w : W) × (recv_message p zero_msg s
          ≡ store_body p zero_msg
              (header_of f)
              (buff_of f)
              (3 + length f.content)
              f.check_sum
              (record s { sys = w; blocks = s.blocks + 1 }))
        × (pending w ≡ rest)
  recv_message-stored pending f rest s i r u e =
      let n = body_of p.order (header_of f) in
      let (v, head, left) = recv_message-body pending f rest s i r e in
      let size = body_of-header p.order f i in
      let whole : length (buff_of f) ≡ n + 2 = length-buff f i ∙ ap (λ k. k + 2) (sym size) in
      let (block, alloc) = malloc-some p u.full (n + 2) v in
      let (x, loop, left') =
        recv_loop-piece p pending s.env.connfd (n + 3) (n + 2) [] (buff_of f) rest
          (after_malloc p (n + 2) (record s { sys = v })) r (u.kept (n + 2) v ∙ left) (omega arith)
          (omega arith) in
      let t : State W = record s { sys = x; blocks = s.blocks + 1 } in
      let body =
        recv_body-stored p (header_of f) (buff_of f) block f.check_sum (record s { sys = v }) t
          alloc loop
          (ap (λ k. load16 p.order (drop k (buff_of f))) size ∙ check_sum-buff p.order f i) in
      (
        x,
        head
            ∙ body
            ∙ ap (λ k. store_body p zero_msg (header_of f) (buff_of f) k f.check_sum t) size,
        left',
      )

  -- What recv_message does with a frame: it parses the message that holds the parts of the frame,
  -- without its own block for the raw bytes, which is freed. The parse allocates blocks of the sizes
  -- given.
  pub recv_message-frame :
      (pending : W → List ℕ) (f : Frame) (rest : List ℕ) (out : Msg) (sizes : List ℕ) (s : State W)
      → IsFrame f
      → 0 < length f.content
      → ReadsStream p s.env.connfd pending
      → Undisturbed pending
      → IsDumped p out
      → pending s.sys ≡ bytes f ++ rest
      → ((u : State W) → parse_raw_msg p (unparsed f) u ≡ ok (pos 0, out) (after_mallocs p sizes u))
      → (w : W) × (recv_message p zero_msg s
          ≡ ok (pos 0, out) (record s { sys = w; blocks = s.blocks + (1 + length sizes) }))
        × (pending w ≡ rest)
  recv_message-frame pending f rest out sizes s i some_bytes r u d e parse =
      let n = length f.content in
      let (x, run, left) = recv_message-stored pending f rest s i r u e in
      let cont = cont_of-content f i in
      let (block, alloc) = malloc-some p u.full n x in
      let t : State W = record s { sys = x; blocks = s.blocks + 1 } in
      let got : State W = record (after_malloc p n t) { blocks = s.blocks + 1 + 1 - 1 } in
      let end : State W = after_mallocs p sizes got in
      let (y, stored, kept) =
        store_body-parsed p pending (header_of f) f.mtype f.content (mem16 little f.check_sum) block
          n (3 + n) f.check_sum out t end i.type_size some_bytes cont refl u.logs d alloc
          (rw (front-header f i) (parse got)) in
      (
        y,
        run
            ∙ stored
            ∙ ap (λ (v : State W). ok (pos 0, out) (record v { sys = y }))
                (after_mallocs-blocks p sizes got)
            ∙ ap (λ b. ok (pos 0, out) (record s { sys = y; blocks = b })) (omega arith),
        kept ∙ after_mallocs-pending pending sizes got u ∙ u.kept n x ∙ left,
      )

  -- A frame without a content has no raw content, and no block stays.
  pub recv_message-empty :
      (pending : W → List ℕ) (start tail mtype : List ℕ) (sum : ℕ) (rest : List ℕ) (out : Msg)
      (s : State W)
      → IsFrame (empty_frame start tail mtype sum)
      → ReadsStream p s.env.connfd pending
      → Undisturbed pending
      → IsDumped p out
      → pending s.sys ≡ bytes (empty_frame start tail mtype sum) ++ rest
      → ((u : State W)
          → parse_raw_msg p
              (record zero_msg {
                header = start ++ tail;
                mtype = mtype;
                body_size = 3;
                check_sum = sum;
              })
              u
            ≡ ok (pos 0, out) u)
      → (w : W) × (recv_message p zero_msg s ≡ ok (pos 0, out) (record s { sys = w }))
        × (pending w ≡ rest)
  recv_message-empty pending start tail mtype sum rest out s i r u d e parse =
      let f = empty_frame start tail mtype sum in
      let (x, run, left) = recv_message-stored pending f rest s i r u e in
      let got : State W = record s { sys = x; blocks = s.blocks + 1 - 1 } in
      let (y, stored, kept) =
        store_body-empty p pending (header_of f) mtype (mem16 little sum) sum out
          (record s { sys = x; blocks = s.blocks + 1 }) got i.type_size u.logs d
          (rw (front-header f i) (parse got)) in
      (
        y,
        run ∙ stored ∙ ap (λ b. ok (pos 0, out) (record s { sys = y; blocks = b })) (omega arith),
        kept ∙ left,
      )
