-- ===== src/Proto.antt =====
-- The logical operations of the protocol (src/zdtm_proto.c). Connecting and disconnecting stand here,
-- with the exchange of a request for a reply that the operations share; the children have the
-- operations on the session, on the time of the last synchronization, and on items.
pub mod Session
pub mod Time
pub mod Item
pub mod Reply
pub mod Codes
pub mod Valid
pub mod Exchange
pub mod Talk
pub mod Told
pub mod Answered
pub mod KeepsEnv
use lib_zdtm_sync.Prelude.{ℕ, ◌+◌, Option, none, some, Bool, List, [], ◌∷◌, not, if◌then◌else◌}
use lib_zdtm_sync.Prelude.Int.{ℤ, pos, negsuc, nonzero}
use lib_zdtm_sync.Run.{M, Run, ok, fault, spin, pure, ◌>>=◌, ◌>>◌, return_if}
use lib_zdtm_sync.Env.{Env, State, get_env}
use lib_zdtm_sync.Platform.{Platform}
use lib_zdtm_sync.Message.{Msg, zero_msg, new_msg, zeroed, is, ray_msg_type}
use lib_zdtm_sync.Msgs.{clean_message}
use lib_zdtm_sync.Net.{conn_to_zaurus, handle_zaurus_conn, close_conn_to_zaurus}
use lib_zdtm_sync.Net.Send.{send_message_to}
use lib_zdtm_sync.Net.Wrapped.{wrapped_send_message, wrapped_recv_message}

-- What an exchange ends with: the reply, of the type awaited, or the code to return.
pub data Answer : Type 0 where
  reply : Msg → Answer
  refused : ℤ → Answer

module _ {W : Type 0} (p : Platform W) where
  unfoldable pub connect : List ℕ → M (State W) ℤ
  connect ip_addr = do
    r ← conn_to_zaurus p ip_addr
    return_if (nonzero r) (pure (negsuc 0))
    env ← get_env
    (r, _) ← send_message_to p (new_msg ray_msg_type zeroed) env.reqfd
    return_if (nonzero r) (pure (negsuc 1))
    r ← handle_zaurus_conn p
    return_if (nonzero r) (pure (negsuc 2))
    pure (pos 0)

  unfoldable pub handle_connection : M (State W) ℤ
  handle_connection = do
    r ← handle_zaurus_conn p
    return_if (nonzero r) (pure (negsuc 0))
    pure (pos 0)

  unfoldable pub disconnect : M (State W) ℤ
  disconnect = do r ← close_conn_to_zaurus p; return_if (nonzero r) (pure (negsuc 0)); pure (pos 0)

  -- Await a message, and compare its type.
  unfoldable pub await : ℕ → List ℕ → M (State W) Answer
  await base mtype = do
    (r, rmsg) ← wrapped_recv_message p zero_msg
    return_if (nonzero r) (do _ ← clean_message rmsg; pure (refused (negsuc (base + 1))))
    return_if (not (is mtype rmsg)) (do _ ← clean_message rmsg; pure (refused (negsuc (base + 2))))
    pure (reply rmsg)

  -- The steps that most operations begin with: send the request, then await its answer. The three
  -- failures have three codes in a row, from -(base + 1) down.
  unfoldable pub ask : ℕ → Msg → List ℕ → M (State W) Answer
  ask base msg mtype = do
    (r, _) ← wrapped_send_message p msg
    return_if (nonzero r) (pure (refused (negsuc base)))
    await base mtype
