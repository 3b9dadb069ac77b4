-- ===== src/Net/Wrapped/Reply.antt =====
-- The exchange in which a reply is asked for, received and acknowledged.
use lib_zdtm_sync.Prelude.{ℕ, ◌+◌, ◌≤◌, ◌<◌, ◌≡◌, ◌≢◌, refl, ◌∙◌, List, ◌++◌, length, arith}
use lib_zdtm_sync.Prelude.Int.{ℤ, pos}
use lib_zdtm_sync.Run.{ok, ◌>>=◌}
use lib_zdtm_sync.Env.{State}
use lib_zdtm_sync.Platform.{Platform}
use lib_zdtm_sync.Message.{zero_msg}
use lib_zdtm_sync.Msgs.{ack_message, rqst_message}
use lib_zdtm_sync.Replies.Kinds.{Reply, IsReply, IsReadable, held}
use lib_zdtm_sync.Net.Send.{send_comm_message_to, send_rqst_message, send_ack_message}
use lib_zdtm_sync.Net.Send.Wire.{TakesAll, send_loop-all}
use lib_zdtm_sync.Net.Recv.Stream.{ReadsStream}
use lib_zdtm_sync.Net.Recv.Start.{Common, bytes_of}
use lib_zdtm_sync.Net.Recv.Frame.{bytes}
use lib_zdtm_sync.Net.Recv.Whole.{Undisturbed}
use lib_zdtm_sync.Net.Recv.Reply.{framed, received, recv_message-reply}
use lib_zdtm_sync.Net.Wrapped.{wrapped_recv_message}

module _ {W : Type 0} (p : Platform W) where
  send_comm_message_to-all :
      (fd : ℤ) (wire : List ℕ) (s : State W)
      → TakesAll p fd
      → 2 ≤ p.send_rounds
      → 7 ≡ length wire
      → send_comm_message_to p fd wire s ≡ ok (pos 0) (record s { sys = (p.send fd wire s.sys).1 })
  unfolding send_comm_message_to
  send_comm_message_to-all fd wire s all rounds h =
      rw
        (
          send_loop-all p fd p.send_rounds wire 7 s all h (omega arith) rounds,
          send_comm_message_to,
          ◌>>=◌,
        )
        refl

  send_rqst_message-all :
      (s : State W)
      → TakesAll p s.env.connfd
      → 2 ≤ p.send_rounds
      → send_rqst_message p s
        ≡ ok (pos 0) (record s { sys = (p.send s.env.connfd rqst_message s.sys).1 })
  unfolding send_rqst_message
  send_rqst_message-all s all rounds =
      send_comm_message_to-all s.env.connfd rqst_message s all rounds (omega arith)

  send_ack_message-all :
      (s : State W)
      → TakesAll p s.env.connfd
      → 2 ≤ p.send_rounds
      → send_ack_message p s
        ≡ ok (pos 0) (record s { sys = (p.send s.env.connfd ack_message s.sys).1 })
  unfolding send_ack_message
  send_ack_message-all s all rounds =
      send_comm_message_to-all s.env.connfd ack_message s all rounds (omega arith)

  -- Where the connection takes all that is sent, snprintf prints what it documents, neither
  -- malloc, nor sending, nor writing to the log, be it open or not, touches what is to come,
  -- memory does not run out, and a reply comes next in a frame, in pieces of any size, behind any
  -- header of 13 bytes that does not begin like a common message, the exchange asks for it,
  -- receives it and acknowledges it: it returns 0 and the message that holds what the reply says,
  -- reads nothing behind the frame, and of the blocks only the raw content, if the reply has one,
  -- and those stay that the struct points at. On a big-endian host the ADW and ADR replies are
  -- excluded.
  pub wrapped_recv_message-reply :
      (pending : W → List ℕ) (r : Reply) (start tail : List ℕ) (sum : ℕ) (rest : List ℕ)
      (s : State W)
      → IsReply r
      → IsReadable p.order r
      → length start ≡ 7
      → length tail ≡ 6
      → sum < 65536
      → ((c : Common) → start ≢ bytes_of c)
      → ReadsStream p s.env.connfd pending
      → Undisturbed p pending
      → TakesAll p s.env.connfd
      → 2 ≤ p.send_rounds
      → ((b : List ℕ) (w : W) → pending (p.send s.env.connfd b w).1 ≡ pending w)
      → pending s.sys ≡ bytes (framed r start tail sum) ++ rest
      → (w : W) × (wrapped_recv_message p zero_msg s
          ≡ ok
              (pos 0, received r start tail sum)
              (record s { sys = w; blocks = s.blocks + held r }))
        × (pending w ≡ rest)
  unfolding wrapped_recv_message
  wrapped_recv_message-reply pending r start tail sum rest s h readable a b c uncommon stream u all
        rounds apart e =
      let asked : State W = record s { sys = (p.send s.env.connfd rqst_message s.sys).1 } in
      let rqst = send_rqst_message-all s all rounds in
      let (v, recv, left) =
        recv_message-reply p pending r start tail sum rest asked h readable a b c uncommon stream u
          (apart rqst_message s.sys ∙ e) in
      let got : State W = record s { sys = v; blocks = s.blocks + held r } in
      let ack = send_ack_message-all got all rounds in
      (
        (p.send s.env.connfd ack_message v).1,
        rw (rqst, recv, ack, wrapped_recv_message, ◌>>=◌) refl,
        apart ack_message v ∙ left,
      )
