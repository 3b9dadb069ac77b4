-- ===== src/Sync/Guards.antt =====
-- What the public functions refuse before they talk to the device.
use lib_zdtm_sync.Prelude.{
  ℕ, ◌≡◌, ◌≢◌, ◌⊎◌, refl, inl, inr, Bool-cases, ◌==◌, ==_iff, List, replicate, Option,
  if◌then◌else◌,
}
use lib_zdtm_sync.Prelude.Int.{ℤ, negsuc}
use lib_zdtm_sync.Run.{ok, M}
use lib_zdtm_sync.Env.{State, FormatParam}
use lib_zdtm_sync.Platform.{Platform}
use lib_zdtm_sync.Contents.{DataParam}
use lib_zdtm_sync.Sync.Initiate.{initiate_sync}
use lib_zdtm_sync.Sync.ItemCalls.{obtain_parsed}

module _ {W : Type 0} (p : Platform W) where
  -- Without a synchronization type, or without the address of the device, the handshake ends with -7
  -- or -5 and neither the environment, nor the world, nor the memory changes. The type is looked at
  -- first.
  pub initiate_sync-unset :
      (s : State W)
      → (s.env.sync_type ≡ 0) ⊎ (s.env.zaurus_ip ≡ replicate 16 0)
      → initiate_sync p s ≡ ok (if s.env.sync_type == 0 then negsuc 6 else negsuc 4) s
  unfolding initiate_sync
  initiate_sync-unset s (inl e) = rw (e, initiate_sync) refl
  initiate_sync-unset s (inr e) = elim (Bool-cases (s.env.sync_type == 0)) [
    | inl t ↦ rw (t, initiate_sync) refl
    | inr t ↦ rw (t, e, initiate_sync) refl
  ]

  -- An item of another kind than the one that is being synchronized is refused with -1; nothing
  -- changes, and the item stays as it was, whatever it is parsed with.
  pub obtain_parsed-other :
      {Item : Type 0} (sync_type : ℕ)
      (parse : Option (List FormatParam)
        → ℕ
        → Option (List DataParam)
        → ℕ
        → Item
        → M (State W) (ℤ × Item))
      (sync_id : ℕ) (item : Item) (s : State W)
      → s.env.sync_type ≢ sync_type
      → obtain_parsed p sync_type parse sync_id item s ≡ ok (negsuc 0, item) s
  unfolding obtain_parsed
  obtain_parsed-other sync_type parse sync_id item s h =
      elim (Bool-cases (s.env.sync_type == sync_type)) [
        | inl t ↦ absurd (h ((==_iff s.env.sync_type sync_type).0 t))
        | inr t ↦ rw (t, obtain_parsed) refl
      ]
