-- ===== src/Tests/Conversation.antt =====
-- A whole synchronization of a todo item on the simulated host.
use lib_zdtm_sync.Prelude.{ℕ, List, [], ◌∷◌, ◌++◌, map}
use lib_zdtm_sync.Msgs.{rqst_message}
use lib_zdtm_sync.Replies.Kinds.{aex, adr}
use lib_zdtm_sync.Proto.Talk.{says}
use lib_zdtm_sync.Items.Columns.{values}
use lib_zdtm_sync.Items.Todo.Columns.{text_of, meaning}
use lib_zdtm_sync.Sync.Handshake.{Answers, script}
use lib_zdtm_sync.Tests.Told.{cover, answers}
use lib_zdtm_sync.Tests.Obtained.{milk}

abbrev milk_answers : Answers
milk_answers = record answers { params = map text_of milk }

-- The handshake, the item and the end, and one byte that the device says later.
abbrev incoming : List ℕ
incoming = script milk_answers (
    says cover (adr (0 ∷ 0 ∷ []) (values meaning milk)) (says cover aex (rqst_message ++ (9 ∷ []))))
