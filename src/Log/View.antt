-- ===== src/Log/View.antt =====
-- What a dump leaves as it is (_zdtm_dump_msg_log of src/zdtm_log.c): all of the state that the calls
-- of the stdio library leave.
use lib_zdtm_sync.Prelude.{ℕ, zero, suc, ◌+◌, List, ◌≡◌, arith, Option-cases, inl, inr}
use lib_zdtm_sync.Prelude.Int.{ℤ, nonzero}
use lib_zdtm_sync.Run.{M, ok, pure, ◌>>=◌, ◌>>◌, return_if, split}
use lib_zdtm_sync.Requests.{pointee}
use lib_zdtm_sync.Env.{State}
use lib_zdtm_sync.Platform.{
  Platform, dump_start, header_label, newline, type_line, content_label, content_size_line,
  checksum_line, body_size_line,
}
use lib_zdtm_sync.Message.{Msg}
use lib_zdtm_sync.Log.{write_log}
use lib_zdtm_sync.Log.Dump.{
  Cat, joined, outside, text, stop, empty, cat, cat_bytes, emit, dump_rows, dump_msg_log,
}

-- A view of the state that writing to a file does not change.
module _ {W A : Type 0} (p : Platform W) (view : State W → A)
    (written : (fp : ℕ) (b : List ℕ) (s : State W)
      → view (record s { sys = (p.fwrite fp b s.sys).1 }) ≡ view s)
    (flushed : (fp : ℕ) (s : State W)
      → view (record s { sys = (p.fflush fp s.sys).1 }) ≡ view s) where
  write_log-view :
      (b : List ℕ) (n : ℕ) (s t : State W) (r : ℤ) → write_log p b n s ≡ ok r t → view t ≡ view s
  unfolding write_log
  write_log-view b n s t r e = elim (Option-cases s.env.logfp) [
    | inl g ↦ ground (arith, g)
    | inr (fp, g) ↦ elim (Option-cases (split n b)) [
      | inl h ↦ ground (arith, g, h)
      | inr ((line, rest), h) ↦
          let kept = written fp line s in
          let kept' = flushed fp (record s { sys = (p.fwrite fp line s.sys).1 }) in ground arith
    ]
  ]

  emit-view : (c : Cat) (s t : State W) (r : ℤ) → emit p c s ≡ ok r t → view t ≡ view s
  unfolding emit
  emit-view outside s t r e = ground arith
  emit-view (joined (stop c)) s t r e = ground arith
  emit-view (joined (text b n)) s t r e = grind (arith, write_log-view)

  dump_rows-view :
      (fuel i n : ℕ) (content : List ℕ) (s t : State W) (r : ℤ)
      → dump_rows p fuel i n content s ≡ ok r t
      → view t ≡ view s
  unfolding dump_rows
  dump_rows-view zero i n content s t r e = ground arith
  dump_rows-view (suc fuel) i n content s t r e = grind (arith, emit-view, dump_rows-view fuel)

  -- a part of the dump, and the rest, which is left out where the code of the part is not 0
  part-view :
      (m n : M (State W) ℤ)
      → ((s t : State W) (r : ℤ) → m s ≡ ok r t → view t ≡ view s)
      → ((s t : State W) (r : ℤ) → n s ≡ ok r t → view t ≡ view s)
      → (s t : State W) (r : ℤ) → (m >>= λ r. return_if (nonzero r) (pure r) >> n) s ≡ ok r t
      → view t ≡ view s
  part-view m n km kn s t r e = grind (arith, km, kn)

  pub dump_msg_log-view :
      (m : Msg) (s t : State W) (r : ℤ) → dump_msg_log p m s ≡ ok r t → view t ≡ view s
  unfolding dump_msg_log
  dump_msg_log-view m = part-view _ _ (emit-view (cat p dump_start (joined empty))) (
      part-view _ _
        (emit-view (cat p newline (cat_bytes p m.header (cat p header_label (joined empty)))))
        (part-view _ _ (emit-view (cat p (type_line m.mtype) (joined empty))) (
          part-view _ _ (emit-view (cat p content_label (joined empty))) (
            part-view _ _ (dump_rows-view (m.cont_size + 1) 0 m.cont_size (pointee m.raw_content)) (
              emit-view (
                cat p (body_size_line m.body_size) (
                  cat p (checksum_line m.check_sum)
                    (cat p (content_size_line m.cont_size) (joined empty)))))))))
