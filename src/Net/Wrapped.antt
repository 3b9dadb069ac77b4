-- ===== src/Net/Wrapped.antt =====
-- The exchanges around a general message (_zdtm_wrapped_send_message and _zdtm_wrapped_recv_message
-- of src/zdtm_net.c): the receiver asks with a request message and answers with an acknowledgement.
pub mod Reply
pub mod Request
use lib_zdtm_sync.Prelude.{not}
use lib_zdtm_sync.Prelude.Int.{ℤ, pos, negsuc, nonzero, negative, equals}
use lib_zdtm_sync.Run.{M, pure, ◌>>=◌, ◌>>◌, return_if}
use lib_zdtm_sync.Env.{State}
use lib_zdtm_sync.Platform.{Platform}
use lib_zdtm_sync.Message.{Msg, zero_msg}
use lib_zdtm_sync.Msgs.{clean_message}
use lib_zdtm_sync.Log.{log_error}
use lib_zdtm_sync.Net.Send.{send_message, send_rqst_message, send_ack_message}
use lib_zdtm_sync.Net.Recv.{recv_message}
use lib_zdtm_sync.Names.{in_send_rqst, in_recv, in_send_ack}

module _ {W : Type 0} (p : Platform W) where
  unfoldable pub wrapped_send_message : Msg → M (State W) (ℤ × Msg)
  wrapped_send_message msg = do
    (r, rmsg) ← recv_message p zero_msg
    return_if (not (equals r 2)) (do _ ← clean_message rmsg; pure (negsuc 0, msg))
    (r, msg) ← send_message p msg
    return_if (nonzero r) (do _ ← clean_message rmsg; pure (negsuc 1, msg))
    (r, rmsg) ← recv_message p zero_msg
    return_if (not (equals r 1)) (do _ ← clean_message rmsg; pure (negsuc 2, msg))
    pure (pos 0, msg)

  unfoldable pub wrapped_recv_message : Msg → M (State W) (ℤ × Msg)
  wrapped_recv_message msg = do
    r ← send_rqst_message p
    return_if (nonzero r) (do _ ← log_error p in_send_rqst r; pure (negsuc 0, msg))
    (r, msg) ← recv_message p msg
    return_if (negative r) (do _ ← log_error p in_recv r; pure (negsuc 1, msg))
    return_if (nonzero r) (pure (r, msg))
    r ← send_ack_message p
    return_if (nonzero r) (do _ ← log_error p in_send_ack r; pure (negsuc 2, msg))
    pure (pos 0, msg)
