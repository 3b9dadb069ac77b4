-- ===== src/Sync/Ending.antt =====
-- The end of a synchronization with a device that answers (zdtm_terminate_sync of src/zdtm_sync.c).
use lib_zdtm_sync.Prelude.{ℕ, ◌+◌, ◌-◌, ◌≡◌, refl, ap, ◌∙◌, arith, false, List, [], ◌∷◌, ◌++◌}
use lib_zdtm_sync.Prelude.Int.{pos}
use lib_zdtm_sync.Run.{ok, ◌>>=◌}
use lib_zdtm_sync.Env.{State}
use lib_zdtm_sync.Platform.{Platform}
use lib_zdtm_sync.Message.{zero_msg}
use lib_zdtm_sync.Msgs.{clean_message, rqst_message}
use lib_zdtm_sync.Requests.Kinds.{rqt, ray}
use lib_zdtm_sync.Replies.Kinds.{aex, held}
use lib_zdtm_sync.Net.{is_error, close_conn_to_zaurus}
use lib_zdtm_sync.Net.Send.Frame.{owned}
use lib_zdtm_sync.Net.Recv.Start.{rqst, recv_message-common}
use lib_zdtm_sync.Net.Wrapped.Request.{send_message-run}
use lib_zdtm_sync.Proto.{disconnect}
use lib_zdtm_sync.Proto.Talk.{Cover, IsCover, Connected, says, portable, readable, talk-says}
use lib_zdtm_sync.Sync.Terminate.{terminate_sync}

module _ {W : Type 0} (p : Platform W) where
  -- Where a device that the host is connected to asks for the message of the end, acknowledges it,
  -- answers with AEX and then asks for a message again, and the socket of the host closes,
  -- zdtm_terminate_sync returns 0, leaves the environment and the number of blocks as they were,
  -- and reads nothing behind what the device said. The host has the memory that it asks for, the
  -- connection takes all that is sent, snprintf prints what it documents, and neither malloc, nor
  -- sending, nor closing, nor writing to the log, be it open or not, touches what is to come.
  pub terminate_sync-completes :
      (pending : W → List ℕ) (c : Cover) (rest : List ℕ) (s : State W)
      → Connected p pending s.env
      → IsCover c
      → ((w : W) → is_error (p.close s.env.reqfd w).0 ≡ false)
      → ((w : W) → pending (p.close s.env.reqfd w).1 ≡ pending w)
      → pending s.sys ≡ says c aex (rqst_message ++ rest)
      → (w : W) × (terminate_sync p s ≡ ok (pos 0) (record s { sys = w })) × (pending w ≡ rest)
  unfolding terminate_sync disconnect close_conn_to_zaurus clean_message
  terminate_sync-completes pending c rest s k i closes apart e =
      let q = rqt (0 ∷ 0 ∷ 0 ∷ []) in
      let (u, v, sent, got, left) =
        talk-says p pending q aex c (rqst_message ++ rest) s k refl (portable q tt p.order) tt
          (readable aex tt p.order) i e in
      let t : State W = record s { sys = v; blocks = s.blocks - owned q + held aex } in
      let (x, asked, left') = recv_message-common p pending zero_msg rqst rest t k.stream left in
      let t' : State W = record t { sys = x } in
      let (y, send, kept) =
        send_message-run p ray t' tt (portable ray tt p.order) k.exact pending k.undisturbed
          k.takes_all k.rounds k.apart in
      let w = (p.close s.env.reqfd y).1 in
      (
        w,
        rw
            (
              sent,
              got,
              asked,
              send,
              closes y,
              terminate_sync,
              disconnect,
              close_conn_to_zaurus,
              ◌>>=◌,
            )
            (ap (λ m. ok (pos 0) (record s { sys = w; blocks = m })) (omega arith)),
        apart y ∙ kept ∙ left',
      )
