-- ===== src/Sync/Told.antt =====
-- The lists of sync ids that the device has get to the caller of zdtm_obtain_sync_id_lists
-- (src/zdtm_sync.c).
use lib_zdtm_sync.Prelude.{ℕ, ◌+◌, ◌-◌, ◌*◌, ◌≡◌, refl, ap, ◌∙◌, [], ◌∷◌, arith, some, List, length}
use lib_zdtm_sync.Prelude.Int.{pos}
use lib_zdtm_sync.Run.{ok, ◌>>=◌}
use lib_zdtm_sync.Env.{State}
use lib_zdtm_sync.Platform.{Platform}
use lib_zdtm_sync.Platform.Blocks.{after_malloc, malloc-some}
use lib_zdtm_sync.Requests.Kinds.{rsy}
use lib_zdtm_sync.Requests.Length.{read_all}
use lib_zdtm_sync.Replies.Kinds.{asy, IsReply}
use lib_zdtm_sync.Replies.Asy.Lists.{IdList}
use lib_zdtm_sync.Msgs.{clean_message}
use lib_zdtm_sync.Net.Recv.Whole.{after_mallocs-pending}
use lib_zdtm_sync.Proto.Talk.{Cover, IsCover, Connected, says, portable, readable, ask-says}
use lib_zdtm_sync.Sync.Lists.{IdLists, copy_lists, obtain_sync_id_lists}

-- The three lists as the caller gets them.
abbrev pub given : (new modified deleted : IdList) → IdLists
given new modified deleted = record {
  new_sync_ids = new.sync_ids;
  num_new_sync_ids = length new.sync_ids;
  mod_sync_ids = modified.sync_ids;
  num_mod_sync_ids = length modified.sync_ids;
  del_sync_ids = deleted.sync_ids;
  num_del_sync_ids = length deleted.sync_ids;
}

module _ {W : Type 0} (p : Platform W) where
  -- Where a device that the host is connected to sends three lists of sync ids, the call returns 0
  -- and stores these lists, each with its ids in their order and with their number. It reads
  -- nothing behind the reply. Six blocks stay: the three of the caller, and those of the reply,
  -- which nothing frees. The host has the memory that it asks for, the connection takes all that
  -- is sent, snprintf prints what it documents, and neither malloc, nor sending, nor writing to
  -- the log, be it open or not, touches what is to come.
  pub obtain_sync_id_lists-asy :
      (pending : W → List ℕ) (new modified deleted : IdList) (c : Cover) (rest : List ℕ)
      (s : State W)
      → Connected p pending s.env
      → IsReply (asy new modified deleted)
      → IsCover c
      → pending s.sys ≡ says c (asy new modified deleted) rest
      → (w : W) × (obtain_sync_id_lists p s
          ≡ ok
              (pos 0, some (given new modified deleted))
              (record s { sys = w; blocks = s.blocks + 6 }))
        × (pending w ≡ rest)
  unfolding obtain_sync_id_lists clean_message copy_lists
  obtain_sync_id_lists-asy pending new modified deleted c rest s k h i e =
      let r = asy new modified deleted in
      let q = rsy s.env.sync_type 0x07 in
      let (v, got, left) =
        ask-says p pending 0 q r c rest s k tt (portable q tt p.order) h (readable r tt p.order) i
          e in
      let t : State W = record s { sys = v; blocks = s.blocks - 0 + 4 } in
      let full = k.undisturbed.full in
      let (b1, alloc1) = malloc-some p full (4 * length new.sync_ids) v in
      let t1 = after_malloc p (4 * length new.sync_ids) t in
      let (b2, alloc2) = malloc-some p full (4 * length modified.sync_ids) t1.sys in
      let t2 = after_malloc p (4 * length modified.sync_ids) t1 in
      let (b3, alloc3) = malloc-some p full (4 * length deleted.sync_ids) t2.sys in
      let t3 = after_malloc p (4 * length deleted.sync_ids) t2 in
      (
        t3.sys,
        rw
            (
              got,
              alloc1,
              alloc2,
              alloc3,
              read_all (length new.sync_ids) new.sync_ids refl,
              read_all (length modified.sync_ids) modified.sync_ids refl,
              read_all (length deleted.sync_ids) deleted.sync_ids refl,
              obtain_sync_id_lists,
              ◌>>=◌,
            )
            (ap
              (λ n.
                ok (pos 0, some (given new modified deleted))
                  (record s { sys = t3.sys; blocks = n }))
              (omega arith)),
        after_mallocs-pending p pending
              (4 * length new.sync_ids
                ∷ 4 * length modified.sync_ids
                ∷ 4 * length deleted.sync_ids
                ∷ [])
              t k.undisturbed
            ∙ left,
      )
