-- ===== src/Tests/Session.antt =====
-- The operations of a synchronization on the simulated host.
use lib_zdtm_sync.Prelude.{◌≡◌, [], ◌∷◌, ◌++◌, some, map}
use lib_zdtm_sync.Prelude.Int.{pos}
use lib_zdtm_sync.Bytes.{little}
use lib_zdtm_sync.Run.{ok, Ends}
use lib_zdtm_sync.Env.{State}
use lib_zdtm_sync.Message.{new_msg, zeroed, rtg_msg_type, atg_msg_type}
use lib_zdtm_sync.Msgs.{rqst_message, ack_message}
use lib_zdtm_sync.Proto.{ask}
use lib_zdtm_sync.Proto.Reply.{IsAnswer, ask-IsAnswer}
use lib_zdtm_sync.Proto.Time.{obtain_last_time_synced}
use lib_zdtm_sync.Proto.Codes.{HasCode, obtain_last_time_synced-IsCode}
use lib_zdtm_sync.Proto.Session.{reset_slow_sync}
use lib_zdtm_sync.Proto.Item.{free_params}
use lib_zdtm_sync.Proto.Item.Blocks.{free_params-param}
use lib_zdtm_sync.Replies.Adr.Params.{param}
use lib_zdtm_sync.Sync.Initiate.{slow_sync_flag}
use lib_zdtm_sync.Sync.Flags.{todo, slow_sync_flag-reset_slow_sync}
use lib_zdtm_sync.Tests.Host.{World, host, whole, start, start_env}

-- The device asks for the message, acknowledges it, and then closes the connection.
abbrev no_reply : State World
no_reply = start (rqst_message ++ ack_message)

ask-IsAnswer_example :
    Ends
      (λ a _. IsAnswer 0 atg_msg_type a)
      (ask (host little whole) 0 (new_msg rtg_msg_type zeroed) atg_msg_type no_reply)
ask-IsAnswer_example =
    ask-IsAnswer (host little whole) 0 (new_msg rtg_msg_type zeroed) atg_msg_type no_reply

obtain_last_time_synced-IsCode_example :
    Ends HasCode (obtain_last_time_synced (host little whole) (pos 0) no_reply)
obtain_last_time_synced-IsCode_example =
    obtain_last_time_synced-IsCode (host little whole) (pos 0) no_reply

slow_sync_flag-reset_slow_sync_example :
    slow_sync_flag (reset_slow_sync (record start_env { sync_type = 6 })) ≡ pos 0
slow_sync_flag-reset_slow_sync_example = slow_sync_flag-reset_slow_sync todo start_env

free_params-param_example :
    free_params (some (map param ((1 ∷ 2 ∷ []) ∷ [] ∷ []))) 2 (record (start []) { blocks = 3 })
    ≡ ok (pos 0) (record (start []) { blocks = 1 })
free_params-param_example =
    free_params-param ((1 ∷ 2 ∷ []) ∷ [] ∷ []) (record (start []) { blocks = 3 })
