-- ===== src/Proto/Item.antt =====
-- Obtaining the parameters of an item and freeing them (_zdtm_obtain_item and _zdtm_free_params of
-- src/zdtm_proto.c).
pub mod Blocks
use lib_zdtm_sync.Prelude.{
  ℕ, zero, suc, Option, none, some, Bool, ◌&&◌, List, [], ◌∷◌, not, ◌==◌, if◌then◌else◌,
}
use lib_zdtm_sync.Prelude.Int.{ℤ, pos, negsuc}
use lib_zdtm_sync.Run.{M, Run, ok, fault, spin, pure, undefined, defined, ◌>>=◌, ◌>>◌}
use lib_zdtm_sync.Env.{Env, State, get_env, free}
use lib_zdtm_sync.Platform.{Platform}
use lib_zdtm_sync.Contents.{DataParam}
use lib_zdtm_sync.Message
use lib_zdtm_sync.Message.{new_msg, rdr_msg_type, adr_msg_type, as_adr}
use lib_zdtm_sync.Msgs.{clean_message}
use lib_zdtm_sync.Proto.{reply, refused, ask}

module _ {W : Type 0} (p : Platform W) where
  -- The code, and what is stored through the two pointers, if anything.
  unfoldable pub obtain_item : ℕ → M (State W) (ℤ × Option (Option (List DataParam) × ℕ))
  obtain_item sync_id = do
    env ← get_env
    answer ←
        ask p 0
          (new_msg rdr_msg_type (
            Message.rdr
              (record { sync_type = env.sync_type; num_sync_ids = 1; sync_id = sync_id })))
          adr_msg_type
    elim answer [
      | refused r ↦ pure (r, none)
      | reply rmsg ↦ do
        adr ← defined (as_adr rmsg.cont)
        _ ← clean_message rmsg
        pure (pos 0, some (adr.params, adr.num_params))
    ]

module _ {W : Type 0} where
  -- The loop frees the data of each parameter whose length is not zero.
  unfoldable pub free_each : ℕ → List DataParam → M (State W) (Unit {0})
  free_each zero params = pure tt
  free_each (suc n) [] = undefined
  free_each (suc n) (x ∷ xs) = do
    _ ← (if x.param_len == 0 then pure tt else free x.param_data)
    free_each n xs

  unfoldable pub free_params : Option (List DataParam) → ℕ → M (State W) ℤ
  unfolding free_each
  free_params none num_params = pure (negsuc 0)
  free_params (some params) num_params = do
    _ ← free_each num_params params
    _ ← free (some params)
    pure (pos 0)
