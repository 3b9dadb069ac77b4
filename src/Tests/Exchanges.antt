-- ===== src/Tests/Exchanges.antt =====
-- Whole exchanges with the device on the simulated host.
use lib_zdtm_sync.Prelude.{ℕ, ◌≡◌, refl, List, [], ◌++◌, arith}
use lib_zdtm_sync.Prelude.Int.{pos}
use lib_zdtm_sync.Bytes.{little}
use lib_zdtm_sync.Run.{ok}
use lib_zdtm_sync.Msgs.{ack_message, rqst_message}
use lib_zdtm_sync.Replies.Kinds.{type_of}
use lib_zdtm_sync.Requests.Kinds.{rtg, message_of}
use lib_zdtm_sync.Net.Recv.Frame.{bytes}
use lib_zdtm_sync.Net.Recv.Reply.{framed, received}
use lib_zdtm_sync.Proto.{reply, ask}
use lib_zdtm_sync.Proto.Exchange.{ask-reply}
use lib_zdtm_sync.Tests.Host.{
  World, host, whole, start, first_seven, last_six, state_reply, first_seven-uncommon,
  host-AllocatesExactly, host-Undisturbed, host-ReadsStream, host-TakesAll,
}

abbrev reply_bytes : List ℕ
reply_bytes = bytes (framed state_reply first_seven last_six 500)

-- What the device says in an exchange.
abbrev said : List ℕ
said = rqst_message ++ (ack_message ++ (reply_bytes ++ []))

ask-reply_example :
    (w : World) × (ask (host little whole) 0 (message_of rtg) (type_of state_reply) (start said)
      ≡ ok
          (reply (received state_reply first_seven last_six 500))
          (record (start []) { sys = w; blocks = 1 }))
    × (w.incoming ≡ [])
ask-reply_example =
    ask-reply (host little whole) (λ w. w.incoming) 0 rtg state_reply first_seven last_six 500 []
      (start said) tt tt (refl, refl) tt refl refl (omega arith) first_seven-uncommon
      (host-AllocatesExactly little whole) (host-ReadsStream little whole (pos 4))
      (host-Undisturbed little whole) (host-TakesAll little (pos 4)) (omega arith) (λ b w. refl)
      refl
