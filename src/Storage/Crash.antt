-- ===== src/Storage/Crash.antt =====
-- crates/vault-core/src/storage.rs: opening after a save that stopped anywhere.
use package.pocket_vault.Base.{◌+◌, ◌≡◌, ◌⊎◌, inl, inr, refl, String, Bytes, Option, ok}
use package.pocket_vault.Model.{other, VaultContainerV1, VaultMetaV1}
use package.pocket_vault.Platform.{Platform, PlatformLaws}
use package.pocket_vault.Vault.{UnlockedVault, at_generation}
use package.pocket_vault.Vault.Commits.{verify_next_slot_iff, at_generation-IsSound}
use package.pocket_vault.Storage.Adapter.{DeviceStorage, StorageLaws}
use package.pocket_vault.Storage.Repository.{save}
use package.pocket_vault.Storage.Save.{save_result}
use package.pocket_vault.Storage.SaveSlot.{save-peek_target}
use package.pocket_vault.Storage.Recovery.{OpensTo, SlotIn-OpensTo}
use package.pocket_vault.Storage.Holding.{
  InStep, Holds, InStep-Holds, kept, Sealed-SlotIn, Holds-OlderAt,
}

module _ {R S : Type 0} (platform : Platform R) (promises : PlatformLaws platform)
    {store : DeviceStorage S} (laws : StorageLaws store) where
  open laws use {peek}

  -- A session in step with the storage is saved. Whatever the outcome, and whatever storage calls
  -- failed, a later `open` with the password finds the committed contents, or those of the session.
  pub save-OpensTo :
      (vault : UnlockedVault) (rng : R) (s : S) (password : Bytes) (meta : VaultMetaV1)
      (committed : VaultContainerV1)
      → InStep platform (peek s) password meta vault committed
      → OpensTo platform
          (peek (save platform store vault rng s).3)
          password
          vault.dek
          vault.persisted_slot
          committed
        ⊎ OpensTo platform
            (peek (save platform store vault rng s).3)
            password
            vault.dek
            (other vault.persisted_slot)
            (at_generation vault.container (vault.container.generation + 1))
  save-OpensTo vault rng s password meta committed h =
      let place = vault.persisted_slot in
      let view = peek (save platform store vault rng s).3 in
      let held =
        kept platform promises laws vault rng s password meta committed
          (InStep-Holds platform (peek s) password meta vault committed h) in
      elim (save-peek_target platform laws vault rng s) [
        | inl same ↦ inl (
            SlotIn-OpensTo platform view password vault.dek meta place committed held.meta_in
              held.slot_in (λ x readable. rw h.same_generation (h.older x (rw same at readable))))
        | inr (text, z, stored) ↦ inr (
            SlotIn-OpensTo platform view password vault.dek meta (other place) _ held.meta_in
              (Sealed-SlotIn platform promises laws vault rng view password meta text h.sound
                h.owner h.born z stored)
              (Holds-OlderAt platform view password meta vault committed held))
      ]

  -- A successful save, also after saves that failed, leaves the session in step with the storage.
  pub Holds-save-InStep :
      (vault : UnlockedVault) (rng : R) (s : S) (password : Bytes) (meta : VaultMetaV1)
      (committed : VaultContainerV1)
      → Holds platform (peek s) password meta vault committed
      → (save platform store vault rng s).0 ≡ ok tt
      → InStep platform
          (peek (save platform store vault rng s).3)
          password
          meta
          (save platform store vault rng s).1
          (at_generation vault.container (vault.container.generation + 1))
  Holds-save-InStep vault rng s password meta committed h done =
      let held = kept platform promises laws vault rng s password meta committed h in
      elim (save_result platform laws vault rng s) [
        | inr (e, failed, _) ↦ absurd (cc)
        | inl (_, moved, published) ↦
            let (fits, place, at, envelope, opens) =
              (verify_next_slot_iff platform vault published.stored).0 published.verified in
            rw moved (record {
              sound =
                  at_generation-IsSound vault.container (vault.container.generation + 1) h.sound;
              owner = h.owner;
              born = h.born;
              same_generation = refl;
              meta_in = held.meta_in;
              slot_in = record {
                slot = published.stored;
                readable = published.readable;
                in_place = place;
                sound = rw (← h.owner) envelope;
                opens = opens;
                generation_lem = at;
                born = h.born;
              };
              older =
                  Holds-OlderAt platform (peek (save platform store vault rng s).3) password meta
                    vault committed held;
            })
      ]

  -- A successful save leaves the session in step with the storage again, the session's contents being
  -- now the committed ones.
  pub save-InStep :
      (vault : UnlockedVault) (rng : R) (s : S) (password : Bytes) (meta : VaultMetaV1)
      (committed : VaultContainerV1)
      → InStep platform (peek s) password meta vault committed
      → (save platform store vault rng s).0 ≡ ok tt
      → InStep platform
          (peek (save platform store vault rng s).3)
          password
          meta
          (save platform store vault rng s).1
          (at_generation vault.container (vault.container.generation + 1))
  save-InStep vault rng s password meta committed h done =
      Holds-save-InStep vault rng s password meta committed
        (InStep-Holds platform (peek s) password meta vault committed h) done

-- A session in step with the storage opens to the committed contents.
pub InStep-OpensTo :
    {R : Type 0} (platform : Platform R) (view : String → Option String) (password : Bytes)
    (meta : VaultMetaV1) (vault : UnlockedVault) (committed : VaultContainerV1)
    → InStep platform view password meta vault committed
    → OpensTo platform view password vault.dek vault.persisted_slot committed
InStep-OpensTo platform view password meta vault committed h =
    SlotIn-OpensTo platform view password vault.dek meta vault.persisted_slot committed h.meta_in
      h.slot_in (λ x readable. rw h.same_generation (h.older x readable))
