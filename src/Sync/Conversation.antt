-- ===== src/Sync/Conversation.antt =====
-- A whole synchronization of a todo item: zdtm_initiate_sync, zdtm_obtain_todo_item and
-- zdtm_terminate_sync of src/zdtm_sync.c, one after the other.
use lib_zdtm_sync.Platform.{Platform}
