-- ===== src/Net/Recv/Reply.antt =====
-- A reply, from the bytes of the connection to the struct.
use lib_zdtm_sync.Prelude.{
  ℕ, ◌+◌, ◌<◌, ◌≡◌, ◌≢◌, refl, sym, ap, ◌∙◌, List, ◌++◌, length, length-append, arith,
}
use lib_zdtm_sync.Prelude.Int.{pos}
use lib_zdtm_sync.Run.{ok}
use lib_zdtm_sync.Env.{State}
use lib_zdtm_sync.Platform.{Platform}
use lib_zdtm_sync.Message.{Msg, zero_msg, aex_msg_type}
use lib_zdtm_sync.Replies.Kinds.{
  Reply, aex, IsReply, IsReadable, type_of, encode, content_of, rooms, raw_content, held,
  length-type_of, length-encode, content-cases,
}
use lib_zdtm_sync.Msgs.Parse.Decode.{parse_raw_msg-encode}
use lib_zdtm_sync.Net.Recv.{recv_message}
use lib_zdtm_sync.Net.Recv.Stream.{ReadsStream}
use lib_zdtm_sync.Net.Recv.Start.{Common, bytes_of}
use lib_zdtm_sync.Net.Recv.Frame.{Frame, IsFrame, bytes}
use lib_zdtm_sync.Requests.{pointee}
use lib_zdtm_sync.Net.Recv.Store.{IsDumped}
use lib_zdtm_sync.Net.Recv.Whole.{Undisturbed, recv_message-frame, recv_message-empty}

-- A reply in the frame that carries it, with any header and any checksum.
abbrev pub framed : Reply → (start tail : List ℕ) → ℕ → Frame
framed r start tail sum = record {
  start = start;
  tail = tail;
  mtype = type_of r;
  content = encode r;
  check_sum = sum;
}

-- The message that the caller gets.
abbrev pub received : Reply → (start tail : List ℕ) → ℕ → Msg
received r start tail sum = record zero_msg {
  header = start ++ tail;
  mtype = type_of r;
  raw_content = raw_content r;
  cont = content_of r;
  body_size = 3 + length (encode r);
  check_sum = sum;
  cont_size = length (encode r);
}

-- That the frame of a reply is one.
framed-IsFrame :
    (r : Reply) (start tail : List ℕ) (sum : ℕ)
    → IsReply r
    → length start ≡ 7
    → length tail ≡ 6
    → sum < 65536
    → ((c : Common) → start ≢ bytes_of c)
    → IsFrame (framed r start tail sum)
framed-IsFrame r start tail sum h a b c uncommon = record {
  start_size = a;
  tail_size = b;
  type_size = length-type_of r;
  content_size = length-encode r h;
  check_sum_size = c;
  uncommon = uncommon;
}

module _ {W : Type 0} (p : Platform W) where
  received-IsDumped :
      (r : Reply) (start tail : List ℕ) (sum : ℕ)
      → length start ≡ 7
      → length tail ≡ 6
      → length (pointee (raw_content r)) ≡ length (encode r)
      → IsDumped p (received r start tail sum)
  received-IsDumped r start tail sum a b content = record {
    header_size = omega (arith, length-append start tail, a, b);
    content_size = content;
  }

  -- Where a reply comes next on the connection, in pieces of any size, behind any header of 13
  -- bytes that does not begin like a common message and with any checksum, memory does not run
  -- out, snprintf prints what it documents, and neither malloc nor writing to the log, be it open
  -- or not, touches what is to come, recv_message returns 0 and the message that holds what the
  -- reply says. It takes the bytes of the frame and leaves those behind them, and of the blocks
  -- that it allocates only the raw content, if the reply has one, and those stay that the struct
  -- points at. On a big-endian host the ADW and ADR replies are excluded.
  pub recv_message-reply :
      (pending : W → List ℕ) (r : Reply) (start tail : List ℕ) (sum : ℕ) (rest : List ℕ)
      (s : State W)
      → IsReply r
      → IsReadable p.order r
      → length start ≡ 7
      → length tail ≡ 6
      → sum < 65536
      → ((c : Common) → start ≢ bytes_of c)
      → ReadsStream p s.env.connfd pending
      → Undisturbed p pending
      → pending s.sys ≡ bytes (framed r start tail sum) ++ rest
      → (w : W) × (recv_message p zero_msg s
          ≡ ok
              (pos 0, received r start tail sum)
              (record s { sys = w; blocks = s.blocks + held r }))
        × (pending w ≡ rest)
  recv_message-reply pending r start tail sum rest s h readable a b c uncommon stream u e =
      content-cases
        (λ r.
          IsReply r
          → IsReadable p.order r
          → IsFrame (framed r start tail sum)
          → pending s.sys ≡ bytes (framed r start tail sum) ++ rest
          → (w : W) × (recv_message p zero_msg s
              ≡ ok (pos 0, received r start tail sum)
                  (record s { sys = w; blocks = s.blocks + held r }))
            × (pending w ≡ rest))
        (λ h readable frame e.
          let (w, run, left) =
            recv_message-empty p pending start tail aex_msg_type sum rest
              (received aex start tail sum) s frame stream u
              (received-IsDumped aex start tail sum a b refl) e
              (λ t. parse_raw_msg-encode p aex (start ++ tail) 3 sum 0 t u.full h readable) in
          (
            w,
            run
                ∙ ap
                    (λ k.
                      ok (pos 0, received aex start tail sum) (record s { sys = w; blocks = k }))
                    (omega arith),
            left,
          ))
        (λ r has h readable frame e.
          let n = length (encode r) in
          let (w, run, left) =
            recv_message-frame p pending (framed r start tail sum) rest (received r start tail sum)
              (rooms r) s frame (has.some_bytes h) stream u
              (received-IsDumped r start tail sum a b (ap (λ o. length (pointee o)) has.raw)) e
              (λ t.
                rw (← has.raw)
                  (parse_raw_msg-encode p r (start ++ tail) (3 + n) sum n t u.full h readable)) in
          (
            w,
            run
                ∙ ap
                    (λ k.
                      ok (pos 0, received r start tail sum)
                        (record s { sys = w; blocks = s.blocks + k }))
                    (sym has.blocks),
            left,
          ))
        r h readable (framed-IsFrame r start tail sum h a b c uncommon) e
