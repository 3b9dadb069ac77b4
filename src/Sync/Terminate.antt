-- ===== src/Sync/Terminate.antt =====
-- The end of a synchronization (zdtm_terminate_sync of src/zdtm_sync.c).
use lib_zdtm_sync.Prelude.{[], ◌∷◌, not}
use lib_zdtm_sync.Prelude.Int.{ℤ, pos, negsuc, nonzero, equals}
use lib_zdtm_sync.Run.{M, pure, ◌>>=◌, ◌>>◌, return_if}
use lib_zdtm_sync.Env.{State}
use lib_zdtm_sync.Platform.{Platform}
use lib_zdtm_sync.Message
use lib_zdtm_sync.Message.{zero_msg, new_msg, zeroed, rqt_msg_type, ray_msg_type}
use lib_zdtm_sync.Msgs.{clean_message}
use lib_zdtm_sync.Net.Send.{send_message}
use lib_zdtm_sync.Net.Recv.{recv_message}
use lib_zdtm_sync.Net.Wrapped.{wrapped_send_message, wrapped_recv_message}
use lib_zdtm_sync.Proto.{disconnect}

module _ {W : Type 0} (p : Platform W) where
  unfoldable pub terminate_sync : M (State W) ℤ
  terminate_sync = do
    (r, _) ←
        wrapped_send_message p
          (new_msg rqt_msg_type (Message.rqt (record { null_bytes = 0 ∷ 0 ∷ 0 ∷ [] })))
    return_if (nonzero r) (pure (negsuc 0))
    (r, rmsg) ← wrapped_recv_message p zero_msg
    _ ← clean_message rmsg
    return_if (nonzero r) (pure (negsuc 1))
    (r, rmsg) ← recv_message p zero_msg
    return_if (not (equals r 2)) (do _ ← clean_message rmsg; pure (negsuc 2))
    (r, _) ← send_message p (new_msg ray_msg_type zeroed)
    return_if (nonzero r) (pure (negsuc 3))
    r ← disconnect p
    return_if (nonzero r) (pure (negsuc 4))
    pure (pos 0)
