-- ===== src/Net/Wrapped/Request.antt =====
-- The exchange in which a request is asked for, sent and acknowledged.
use lib_zdtm_sync.Prelude.{ℕ, ◌-◌, ◌≤◌, ◌≡◌, refl, ◌∙◌, List, ◌++◌}
use lib_zdtm_sync.Prelude.Int.{ℤ, pos}
use lib_zdtm_sync.Run.{ok, ◌>>=◌}
use lib_zdtm_sync.Env.{State}
use lib_zdtm_sync.Platform.{Platform, AllocatesExactly}
use lib_zdtm_sync.Message.{zero_msg}
use lib_zdtm_sync.Msgs.{ack_message, rqst_message}
use lib_zdtm_sync.Requests.Kinds.{Request, IsSendable, IsPortable, message_of}
use lib_zdtm_sync.Net.Send.{send_message}
use lib_zdtm_sync.Net.Send.Wire.{TakesAll}
use lib_zdtm_sync.Net.Send.Frame.{cleaned, owned, sent_world, send_message_to-run}
use lib_zdtm_sync.Net.Recv.Stream.{ReadsStream}
use lib_zdtm_sync.Net.Recv.Start.{ack, rqst, recv_message-common}
use lib_zdtm_sync.Log.Apart.{dump_msg_log-apart}
use lib_zdtm_sync.Net.Recv.Whole.{Undisturbed}
use lib_zdtm_sync.Net.Wrapped.{wrapped_send_message}

module _ {W : Type 0} (p : Platform W) where
  -- Sending a request takes nothing from the connection.
  pub sent_world-pending :
      (pending : W → List ℕ) (r : Request) (fd : ℤ) (s : State W)
      → Undisturbed p pending
      → ((b : List ℕ) (w : W) → pending (p.send fd b w).1 ≡ pending w)
      → pending (sent_world p r fd s) ≡ pending s.sys
  sent_world-pending pending r fd s u apart = apart _ _ ∙ u.kept _ _ ∙ u.kept _ _

  pub send_message-run :
      (r : Request) (s : State W)
      → IsSendable r
      → IsPortable p.order r
      → AllocatesExactly p
      → (pending : W → List ℕ) → Undisturbed p pending
      → TakesAll p s.env.connfd
      → 2 ≤ p.send_rounds
      → ((b : List ℕ) (w : W) → pending (p.send s.env.connfd b w).1 ≡ pending w)
      → (w : W) × (send_message p (message_of r) s
          ≡ ok (pos 0, cleaned r) (record s { sys = w; blocks = s.blocks - owned r }))
        × (pending w ≡ pending s.sys)
  unfolding send_message
  send_message-run r s h c exact pending u all rounds apart =
      let (k, v, dump, kept) = dump_msg_log-apart p pending (message_of r) s u.logs refl refl in
      let t : State W = record s { sys = v } in
      (
        sent_world p r s.env.connfd t,
        rw (dump, send_message, ◌>>=◌)
            (send_message_to-run p r s.env.connfd t h c exact u.full all rounds),
        sent_world-pending pending r s.env.connfd t u apart ∙ kept,
      )

  pub wrapped_send_message-request :
      (pending : W → List ℕ) (r : Request) (rest : List ℕ) (s : State W)
      → IsSendable r
      → IsPortable p.order r
      → AllocatesExactly p
      → ReadsStream p s.env.connfd pending
      → Undisturbed p pending
      → TakesAll p s.env.connfd
      → 2 ≤ p.send_rounds
      → ((b : List ℕ) (w : W) → pending (p.send s.env.connfd b w).1 ≡ pending w)
      → pending s.sys ≡ rqst_message ++ (ack_message ++ rest)
      → (w : W) × (wrapped_send_message p (message_of r) s
          ≡ ok (pos 0, cleaned r) (record s { sys = w; blocks = s.blocks - owned r }))
        × (pending w ≡ rest)
  unfolding wrapped_send_message
  wrapped_send_message-request pending r rest s h c exact stream u all rounds apart e =
      let (v, asked, left) =
        recv_message-common p pending zero_msg rqst (ack_message ++ rest) s stream e in
      let t : State W = record s { sys = v } in
      let (x, send, kept) = send_message-run r t h c exact pending u all rounds apart in
      let sent : State W = record s { sys = x; blocks = s.blocks - owned r } in
      let (w, answered, left') =
        recv_message-common p pending zero_msg ack rest sent stream (kept ∙ left) in
      (w, rw (asked, send, answered, wrapped_send_message, ◌>>=◌) refl, left')
