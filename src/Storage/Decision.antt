-- ===== src/Storage/Decision.antt =====
-- crates/vault-core/src/storage.rs: the session that `open` decides for.
use package.pocket_vault.Base.{
  ◌≡◌, ◌⊎◌, inl, inr, refl, ◌∙◌, String, Bytes, List, Elem, Option, ok, arith,
}
use package.pocket_vault.Model.{
  SlotId, other, EncryptedVaultSlotV1, VaultContainerV1, VaultMetaV1, validate_container,
  active_slot_eq,
}
use package.pocket_vault.Model.Spec.{ContainerIsSound}
use package.pocket_vault.Model.Validation.{validate_container_iff}
use package.pocket_vault.Platform.{Platform}
use package.pocket_vault.Vault.{UnlockedVault, decrypt_container}
use package.pocket_vault.Storage.Reference.{Choice, open_view}
use package.pocket_vault.Storage.Recovery.{SlotIn, MetaIn, OlderAt, SlotIn-open_view}
use package.pocket_vault.Storage.Holding.{InStep, Holds-OlderAt}
use package.pocket_vault.Storage.Recoverable.{Recoverable}

-- The session of a choice.
abbrev pub session_at : Choice → UnlockedVault
session_at choice = record {
  container = choice.chosen.1;
  dek = choice.dek;
  persisted_slot = choice.chosen.0.slot;
}

module _ {R : Type 0} (platform : Platform R) where
  decrypt_container-IsSound :
      (dek : Bytes) (slot : EncryptedVaultSlotV1) (c : VaultContainerV1)
      → decrypt_container platform dek slot ≡ ok c
      → ContainerIsSound c × (c.vault_id ≡ slot.vault_id)
  unfolding decrypt_container
  decrypt_container-IsSound dek slot c h =
      let iff = validate_container_iff c slot.vault_id slot.generation in
      let valid : validate_container c slot.vault_id slot.generation ≡ ok tt = ground arith in
      let (sound, owner, _) = iff.0 valid in (sound, owner)

  -- A session on a slot that is newer than the other is in step with the storage.
  SlotIn-InStep :
      (view : String → Option String) (password dek : Bytes) (meta : VaultMetaV1) (place : SlotId)
      (c : VaultContainerV1)
      → MetaIn platform view password meta dek
      → SlotIn platform view meta dek place c
      → OlderAt platform view meta (other place) c.generation
      → InStep platform view password meta
          (record { container = c; dek = dek; persisted_slot = place })
          c
  SlotIn-InStep view password dek meta place c m s older =
      let (sound, owner) = decrypt_container-IsSound dek s.slot c s.opens in
      record {
        sound = sound;
        owner = owner ∙ s.sound.owner;
        born = s.born;
        same_generation = refl;
        meta_in = m;
        slot_in = s;
        older = older;
      }

  -- What `open` decides on such a storage: the slot's contents, whose session is in step with it.
  SlotIn-decides :
      (view : String → Option String) (password dek : Bytes) (meta : VaultMetaV1) (place : SlotId)
      (c : VaultContainerV1)
      → MetaIn platform view password meta dek
      → SlotIn platform view meta dek place c
      → OlderAt platform view meta (other place) c.generation
      → (choice : Choice) × (open_view platform view password ≡ ok choice)
        × (choice.chosen.1 ≡ c)
        × InStep platform view password meta (session_at choice) choice.chosen.1
  SlotIn-decides view password dek meta place c m s older = (
    _,
    SlotIn-open_view platform view password dek meta place c m s older,
    refl,
    rw s.in_place (SlotIn-InStep view password dek meta place c m s older),
  )

  pub Recoverable-decides :
      (view : String → Option String) (password : Bytes) (meta : VaultMetaV1)
      (vault : UnlockedVault) (committed : VaultContainerV1) (tried : List VaultContainerV1)
      → Recoverable platform view password meta vault committed tried
      → (choice : Choice) × (open_view platform view password ≡ ok choice)
        × ((choice.chosen.1 ≡ committed) ⊎ Elem choice.chosen.1 tried)
        × InStep platform view password meta (session_at choice) choice.chosen.1
  Recoverable-decides view password meta vault committed tried h = elim h.beside [
    | inl older ↦
        let (choice, decided, contents, step) =
          SlotIn-decides view password vault.dek meta vault.persisted_slot committed h.held.meta_in
            h.held.slot_in (λ x readable. rw h.held.same_generation (older x readable)) in
        (choice, decided, inl contents, step)
    | inr x ↦
        let (choice, decided, contents, step) =
          SlotIn-decides view password vault.dek meta (other vault.persisted_slot) x.container
            h.held.meta_in x.slot_in
            (rw x.at (Holds-OlderAt platform view password meta vault committed h.held)) in
        (choice, decided, inr (rw contents x.listed), step)
  ]
