-- ===== src/Sync/Greeting.antt =====
-- The first half of the handshake (zdtm_connect and the greeting in zdtm_initiate_sync of
-- src/zdtm_sync.c) where the device can be reached and greets back.
use lib_zdtm_sync.Prelude.{ℕ, ◌-◌, ◌≡◌, refl, ap, ◌∙◌, arith, false, List, ◌++◌}
use lib_zdtm_sync.Prelude.Int.{ℤ, pos}
use lib_zdtm_sync.Run.{ok, ◌>>=◌}
use lib_zdtm_sync.Env.{Env, State}
use lib_zdtm_sync.Platform.{Platform}
use lib_zdtm_sync.Requests.Kinds.{ray}
use lib_zdtm_sync.Replies.Kinds.{aay, IsReply}
use lib_zdtm_sync.Message.{zero_msg}
use lib_zdtm_sync.Msgs.{ack_message, clean_message}
use lib_zdtm_sync.Net.{is_error, zlistport, conn_to_zaurus, handle_zaurus_conn}
use lib_zdtm_sync.Net.Send.Wire.{TakesAll}
use lib_zdtm_sync.Net.Send.Frame.{sent_world, send_message_to-run}
use lib_zdtm_sync.Net.Recv.Start.{ack, recv_message-common}
use lib_zdtm_sync.Net.Recv.Frame.{bytes}
use lib_zdtm_sync.Net.Recv.Reply.{framed}
use lib_zdtm_sync.Net.Wrapped.Reply.{wrapped_recv_message-reply}
use lib_zdtm_sync.Net.Wrapped.Request.{send_message-run, sent_world-pending}
use lib_zdtm_sync.Proto.{connect}
use lib_zdtm_sync.Proto.Talk.{Cover, IsCover, Connected, portable, readable}
use lib_zdtm_sync.Sync.Initiate.{await_aay, greet}

-- The environment with the two sockets of the handshake.
abbrev pub joined : (reqfd connfd : ℤ) → Env → Env
joined reqfd connfd env = record env { reqfd = reqfd; connfd = connfd }

module _ {W : Type 0} (p : Platform W) where
  -- A device that can be reached at the address of the environment and connects back: the calls that
  -- open the two sockets give these and no error, the first takes all that is sent, and none of the
  -- calls touches what the device is to say.
  pub record Reachable (pending : W → List ℕ) (env : Env) (reqfd connfd : ℤ) : Type 0 where
    pub address : List ℕ
    pub opened : (w : W) → (p.socket w).0 ≡ reqfd
    pub is_socket : is_error reqfd ≡ false
    pub resolved : (w : W) → (p.inet_pton env.zaurus_ip w).0 ≡ (pos 1, address)
    pub reached : (w : W) → (p.connect reqfd address zlistport w).0 ≡ pos 0
    pub accepted : (w : W) → (p.accept env.listenfd w).0 ≡ connfd
    pub is_connection : is_error connfd ≡ false
    pub takes_all : TakesAll p reqfd
    pub socket_apart : (w : W) → pending (p.socket w).1 ≡ pending w
    pub address_apart : (w : W) → pending (p.inet_pton env.zaurus_ip w).1 ≡ pending w
    pub connect_apart : (w : W) → pending (p.connect reqfd address zlistport w).1 ≡ pending w
    pub send_apart : (b : List ℕ) (w : W) → pending (p.send reqfd b w).1 ≡ pending w
    pub accept_apart : (w : W) → pending (p.accept env.listenfd w).1 ≡ pending w

  conn_to_zaurus-reached :
      (pending : W → List ℕ) (reqfd connfd : ℤ) (s : State W)
      → Reachable pending s.env reqfd connfd
      → (w : W) × (conn_to_zaurus p s.env.zaurus_ip s
          ≡ ok (pos 0) (record s { env = record s.env { reqfd = reqfd }; sys = w }))
        × (pending w ≡ pending s.sys)
  unfolding conn_to_zaurus
  conn_to_zaurus-reached pending reqfd connfd s r =
      let u = (p.socket s.sys).1 in
      let v = (p.inet_pton s.env.zaurus_ip u).1 in
      (
        (p.connect reqfd r.address zlistport v).1,
        rw (r.opened s.sys, r.is_socket, r.resolved u, r.reached v, conn_to_zaurus, ◌>>=◌) refl,
        r.connect_apart v ∙ r.address_apart u ∙ r.socket_apart s.sys,
      )

  connect-reached :
      (pending : W → List ℕ) (reqfd connfd : ℤ) (s : State W)
      → Reachable pending s.env reqfd connfd
      → Connected p pending (joined reqfd connfd s.env)
      → (w : W) × (connect p s.env.zaurus_ip s
          ≡ ok (pos 0) (record s { env = joined reqfd connfd s.env; sys = w }))
        × (pending w ≡ pending s.sys)
  unfolding connect handle_zaurus_conn
  connect-reached pending reqfd connfd s r k =
      let (u, opened, same) = conn_to_zaurus-reached pending reqfd connfd s r in
      let t : State W = record s { env = record s.env { reqfd = reqfd }; sys = u } in
      let sent =
        send_message_to-run p ray reqfd t tt (portable ray tt p.order) k.exact k.undisturbed.full
          r.takes_all k.rounds in
      let v = sent_world p ray reqfd t in
      (
        (p.accept s.env.listenfd v).1,
        rw (opened, sent, r.accepted v, r.is_connection, connect, handle_zaurus_conn, ◌>>=◌)
            (ap
              (λ n. ok (pos 0) (record s {
                env = joined reqfd connfd s.env;
                sys = (p.accept s.env.listenfd v).1;
                blocks = n;
              }))
              (omega arith)),
        r.accept_apart v
            ∙ sent_world-pending p pending ray reqfd t k.undisturbed r.send_apart
            ∙ same,
      )

  -- What a device says in the greeting: it acknowledges RAY and sends AAY.
  pub greet-reached :
      (pending : W → List ℕ) (reqfd connfd : ℤ) (uk : List ℕ) (c : Cover) (rest : List ℕ)
      (s : State W)
      → Reachable pending s.env reqfd connfd
      → Connected p pending (joined reqfd connfd s.env)
      → IsReply (aay uk)
      → IsCover c
      → pending s.sys ≡ ack_message ++ (bytes (framed (aay uk) c.start c.tail c.check_sum) ++ rest)
      → (w : W) × (greet p s ≡ ok (pos 0) (record s { env = joined reqfd connfd s.env; sys = w }))
        × (pending w ≡ rest)
  unfolding greet await_aay clean_message
  greet-reached pending reqfd connfd uk c rest s r k h i e =
      let env = joined reqfd connfd s.env in
      let (u, opened, same) = connect-reached pending reqfd connfd s r k in
      let t : State W = record s { env = env; sys = u } in
      let (x, sent, kept) =
        send_message-run p ray t tt (portable ray tt p.order) k.exact pending k.undisturbed
          k.takes_all k.rounds k.apart in
      let t1 : State W = record t { sys = x; blocks = s.blocks - 0 } in
      let (v, acked, left) =
        recv_message-common p pending zero_msg ack
          (bytes (framed (aay uk) c.start c.tail c.check_sum) ++ rest) t1 k.stream
          (kept ∙ same ∙ e) in
      let t2 : State W = record t1 { sys = v } in
      let (w, got, left') =
        wrapped_recv_message-reply p pending (aay uk) c.start c.tail c.check_sum rest t2 h
          (readable (aay uk) tt p.order) i.start_size i.tail_size i.check_sum_size i.uncommon
          k.stream k.undisturbed k.takes_all k.rounds k.apart left in
      (
        w,
        rw (opened, sent, acked, got, greet, await_aay, ◌>>=◌)
            (ap (λ n. ok (pos 0) (record s { env = env; sys = w; blocks = n })) (omega arith)),
        left',
      )
