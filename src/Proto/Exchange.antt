-- ===== src/Proto/Exchange.antt =====
-- A whole exchange of the protocol: the request goes out and the reply comes back.
use lib_zdtm_sync.Prelude.{
  ℕ, ◌+◌, ◌-◌, ◌≤◌, ◌<◌, ◌≡◌, ◌≢◌, refl, List, ◌++◌, length, same_bytes_refl,
}
use lib_zdtm_sync.Run.{ok, ◌>>=◌}
use lib_zdtm_sync.Env.{State}
use lib_zdtm_sync.Platform.{Platform, AllocatesExactly}
use lib_zdtm_sync.Msgs.{ack_message, rqst_message}
use lib_zdtm_sync.Replies.Kinds.{Reply, IsReply, IsReadable, type_of, held}
use lib_zdtm_sync.Requests.Kinds.{Request, IsSendable, IsPortable, message_of}
use lib_zdtm_sync.Net.Send.Wire.{TakesAll}
use lib_zdtm_sync.Net.Send.Frame.{owned}
use lib_zdtm_sync.Net.Recv.Stream.{ReadsStream}
use lib_zdtm_sync.Net.Recv.Start.{Common, bytes_of}
use lib_zdtm_sync.Net.Recv.Frame.{bytes}
use lib_zdtm_sync.Net.Recv.Whole.{Undisturbed}
use lib_zdtm_sync.Net.Recv.Reply.{framed, received}
use lib_zdtm_sync.Net.Wrapped.Request.{wrapped_send_message-request}
use lib_zdtm_sync.Net.Wrapped.Reply.{wrapped_recv_message-reply}
use lib_zdtm_sync.Proto.{reply, await, ask}

module _ {W : Type 0} (p : Platform W) where
  -- Where a device asks for a message, acknowledges it and then sends a reply, in pieces of any
  -- size, behind any header that does not begin like a common message, its reply gets to the
  -- caller: the exchange ends with the message that holds what the reply says, reads nothing
  -- behind it, and leaves the raw content, if the reply has one, and the blocks that the struct
  -- points at. The request is of a kind other than RDW, fits its struct and is written portably by
  -- the host, which can read the reply. The host has the memory that it asks for, the connection
  -- takes all that is sent, snprintf prints what it documents, and neither malloc, nor sending,
  -- nor writing to the log, be it open or not, touches what is to come.
  pub ask-reply :
      (pending : W → List ℕ) (base : ℕ) (q : Request) (r : Reply) (start tail : List ℕ) (sum : ℕ)
      (rest : List ℕ) (s : State W)
      → IsSendable q
      → IsPortable p.order q
      → IsReply r
      → IsReadable p.order r
      → length start ≡ 7
      → length tail ≡ 6
      → sum < 65536
      → ((c : Common) → start ≢ bytes_of c)
      → AllocatesExactly p
      → ReadsStream p s.env.connfd pending
      → Undisturbed p pending
      → TakesAll p s.env.connfd
      → 2 ≤ p.send_rounds
      → ((b : List ℕ) (w : W) → pending (p.send s.env.connfd b w).1 ≡ pending w)
      → pending s.sys ≡ rqst_message ++ (ack_message ++ (bytes (framed r start tail sum) ++ rest))
      → (w : W) × (ask p base (message_of q) (type_of r) s
          ≡ ok
              (reply (received r start tail sum))
              (record s { sys = w; blocks = s.blocks - owned q + held r }))
        × (pending w ≡ rest)
  unfolding ask await
  ask-reply pending base q r start tail sum rest s hq cq hr cr a b c uncommon exact stream u all
        rounds apart e =
      let (v, sent, left) =
        wrapped_send_message-request p pending q (bytes (framed r start tail sum) ++ rest) s hq cq
          exact stream u all rounds apart e in
      let t : State W = record s { sys = v; blocks = s.blocks - owned q } in
      let (w, got, left') =
        wrapped_recv_message-reply p pending r start tail sum rest t hr cr a b c uncommon stream u
          all rounds apart left in
      (w, rw (sent, got, same_bytes_refl (type_of r), ask, await, ◌>>=◌) refl, left')
