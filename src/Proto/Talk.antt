-- ===== src/Proto/Talk.antt =====
-- What a device says in an exchange, and the exchange behind which its reply is at hand.
use lib_zdtm_sync.Prelude.{ℕ, ◌+◌, ◌-◌, ◌≤◌, ◌<◌, ◌≡◌, ◌≢◌, List, ◌++◌, length}
use lib_zdtm_sync.Prelude.Int.{pos}
use lib_zdtm_sync.Bytes.{Endian, little, big}
use lib_zdtm_sync.Run.{ok}
use lib_zdtm_sync.Env.{Env, State}
use lib_zdtm_sync.Platform.{Platform, AllocatesExactly}
use lib_zdtm_sync.Message.{Msg, zero_msg}
use lib_zdtm_sync.Msgs.{ack_message, rqst_message}
use lib_zdtm_sync.Replies.Kinds.{Reply, IsReply, IsReadable, type_of, held}
use lib_zdtm_sync.Requests.Kinds.{Request, IsSendable, IsPortable, message_of}
use lib_zdtm_sync.Net.Send.Wire.{TakesAll}
use lib_zdtm_sync.Net.Send.Frame.{owned, cleaned}
use lib_zdtm_sync.Net.Recv.Stream.{ReadsStream}
use lib_zdtm_sync.Net.Recv.Start.{Common, bytes_of}
use lib_zdtm_sync.Net.Recv.Frame.{bytes}
use lib_zdtm_sync.Net.Recv.Whole.{Undisturbed}
use lib_zdtm_sync.Net.Recv.Reply.{framed, received}
use lib_zdtm_sync.Net.Wrapped.{wrapped_send_message, wrapped_recv_message}
use lib_zdtm_sync.Net.Wrapped.Request.{wrapped_send_message-request}
use lib_zdtm_sync.Net.Wrapped.Reply.{wrapped_recv_message-reply}
use lib_zdtm_sync.Proto.{reply, ask}
use lib_zdtm_sync.Proto.Exchange.{ask-reply}

-- What surrounds a reply in its frame: the header, in two parts, and the checksum.
pub record Cover : Type 0 where
  pub start : List ℕ
  pub tail : List ℕ
  pub check_sum : ℕ

pub record IsCover (c : Cover) : Type 0 where
  pub start_size : length c.start ≡ 7
  pub tail_size : length c.tail ≡ 6
  pub check_sum_size : c.check_sum < 65536
  pub uncommon : (k : Common) → c.start ≢ bytes_of k

-- The bytes of an exchange on the side of the device: it asks for the request, acknowledges it and
-- sends its reply.
abbrev pub says : Cover → Reply → List ℕ → List ℕ
says c r rest =
    rqst_message ++ (ack_message ++ (bytes (framed r c.start c.tail c.check_sum) ++ rest))

abbrev pub message : Cover → Reply → Msg
message c r = received r c.start c.tail c.check_sum

-- Where a big-endian host sends a request portably, every host does; and so for the replies.
pub portable : (q : Request) → IsPortable big q → (e : Endian) → IsPortable e q
portable q h little = tt
portable q h big = h

pub readable : (r : Reply) → IsReadable big r → (e : Endian) → IsReadable e r
readable r h little = tt
readable r h big = h

module _ {W : Type 0} (p : Platform W) where
  -- A host that is connected to a device, with the bytes that the device is still to say: malloc
  -- gives what is asked for, the connection takes all that is sent, and neither malloc, nor
  -- sending, nor writing to the log touches what is to come. Whether the log is open is left open.
  pub record Connected (pending : W → List ℕ) (env : Env) : Type 0 where
    pub exact : AllocatesExactly p
    pub stream : ReadsStream p env.connfd pending
    pub undisturbed : Undisturbed p pending
    pub takes_all : TakesAll p env.connfd
    pub rounds : 2 ≤ p.send_rounds
    pub apart : (b : List ℕ) (w : W) → pending (p.send env.connfd b w).1 ≡ pending w

  pub ask-says :
      (pending : W → List ℕ) (base : ℕ) (q : Request) (r : Reply) (c : Cover) (rest : List ℕ)
      (s : State W)
      → Connected pending s.env
      → IsSendable q
      → IsPortable p.order q
      → IsReply r
      → IsReadable p.order r
      → IsCover c
      → pending s.sys ≡ says c r rest
      → (w : W) × (ask p base (message_of q) (type_of r) s
          ≡ ok (reply (message c r)) (record s { sys = w; blocks = s.blocks - owned q + held r }))
        × (pending w ≡ rest)
  ask-says pending base q r c rest s k hq cq hr cr i e =
      ask-reply p pending base q r c.start c.tail c.check_sum rest s hq cq hr cr i.start_size
        i.tail_size i.check_sum_size i.uncommon k.exact k.stream k.undisturbed k.takes_all k.rounds
        k.apart e

  -- The two halves of it.
  pub talk-says :
      (pending : W → List ℕ) (q : Request) (r : Reply) (c : Cover) (rest : List ℕ) (s : State W)
      → Connected pending s.env
      → IsSendable q
      → IsPortable p.order q
      → IsReply r
      → IsReadable p.order r
      → IsCover c
      → pending s.sys ≡ says c r rest
      → (v : W) × (w : W) × (wrapped_send_message p (message_of q) s
          ≡ ok (pos 0, cleaned q) (record s { sys = v; blocks = s.blocks - owned q }))
        × (wrapped_recv_message p zero_msg (record s { sys = v; blocks = s.blocks - owned q })
            ≡ ok (pos 0, message c r) (record s { sys = w; blocks = s.blocks - owned q + held r }))
        × (pending w ≡ rest)
  talk-says pending q r c rest s k hq cq hr cr i e =
      let (v, sent, left) =
        wrapped_send_message-request p pending q
          (bytes (framed r c.start c.tail c.check_sum) ++ rest) s hq cq k.exact k.stream
          k.undisturbed k.takes_all k.rounds k.apart e in
      let t : State W = record s { sys = v; blocks = s.blocks - owned q } in
      let (w, got, left') =
        wrapped_recv_message-reply p pending r c.start c.tail c.check_sum rest t hr cr i.start_size
          i.tail_size i.check_sum_size i.uncommon k.stream k.undisturbed k.takes_all k.rounds
          k.apart left in
      (v, w, sent, got, left')
