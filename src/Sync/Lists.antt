-- ===== src/Sync/Lists.antt =====
-- The lists of sync ids (zdtm_obtain_sync_id_lists of src/zdtm_sync.c).
use lib_zdtm_sync.Prelude.{ℕ, ◌*◌, Option, none, some, List}
use lib_zdtm_sync.Prelude.Int.{ℤ, pos, negsuc}
use lib_zdtm_sync.Run.{M, pure, defined, ◌>>=◌}
use lib_zdtm_sync.Env.{State, get_env, free}
use lib_zdtm_sync.Platform.{Platform, allocate}
use lib_zdtm_sync.Requests.{pointee, read}
use lib_zdtm_sync.Contents.{Asy}
use lib_zdtm_sync.Message
use lib_zdtm_sync.Message.{Msg, new_msg, rsy_msg_type, asy_msg_type, as_asy}
use lib_zdtm_sync.Msgs.{clean_message}
use lib_zdtm_sync.Proto.{reply, refused, ask}

-- What is stored through the six pointers.
pub record IdLists : Type 0 where
  pub new_sync_ids : List ℕ
  pub num_new_sync_ids : ℕ
  pub mod_sync_ids : List ℕ
  pub num_mod_sync_ids : ℕ
  pub del_sync_ids : List ℕ
  pub num_del_sync_ids : ℕ

module _ {W : Type 0} (p : Platform W) where
  -- The three copies, once there is room for all.
  unfoldable pub copy_lists : Asy → M (State W) IdLists
  copy_lists asy = do
    new ← defined (read asy.num_new_sync_ids (pointee asy.new_sync_ids))
    modified ← defined (read asy.num_mod_sync_ids (pointee asy.mod_sync_ids))
    deleted ← defined (read asy.num_del_sync_ids (pointee asy.del_sync_ids))
    pure (record {
      new_sync_ids = new;
      num_new_sync_ids = asy.num_new_sync_ids;
      mod_sync_ids = modified;
      num_mod_sync_ids = asy.num_mod_sync_ids;
      del_sync_ids = deleted;
      num_del_sync_ids = asy.num_del_sync_ids;
    })

  unfoldable pub obtain_sync_id_lists : M (State W) (ℤ × Option IdLists)
  unfolding copy_lists
  obtain_sync_id_lists = do
    env ← get_env
    answer ←
        ask p 0
          (new_msg rsy_msg_type (Message.rsy (record { sync_type = env.sync_type; uk = 0x07 })))
          asy_msg_type
    elim answer [
      | refused r ↦ pure (r, none)
      | reply rmsg ↦ do
        asy ← defined (as_asy rmsg.cont)
        new ← allocate p (4 * asy.num_new_sync_ids)
        elim new [
          | none ↦ do _ ← clean_message rmsg; pure (negsuc 3, none)
          | some new ↦ do
            modified ← allocate p (4 * asy.num_mod_sync_ids)
            elim modified [
              | none ↦ do _ ← free (some new); _ ← clean_message rmsg; pure (negsuc 3, none)
              | some modified ↦ do
                deleted ← allocate p (4 * asy.num_del_sync_ids)
                elim deleted [
                  | none ↦ do
                    _ ← free (some modified)
                    _ ← free (some new)
                    _ ← clean_message rmsg
                    pure (negsuc 3, none)
                  | some deleted ↦ do
                    lists ← copy_lists asy
                    _ ← clean_message rmsg
                    pure (pos 0, some lists)
                ]
            ]
        ]
    ]
