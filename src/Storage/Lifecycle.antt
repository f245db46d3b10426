-- ===== src/Storage/Lifecycle.antt =====
-- crates/vault-core/src/storage.rs: a session and the storage between two saves.
use package.pocket_vault.Base.{
  ℕ, ◌≡◌, ◌⊎◌, inl, inr, sym, ◌∙◌, String, Bytes, Bool, true, false, Option, some, ok, err,
  Result-cases, Bool-cases, arith, ◌==◌, option_eq,
}
use package.pocket_vault.Error.{VaultError}
use package.pocket_vault.Model.{
  EntryId, NewVaultEntry, UpdateVaultEntry, VaultContainerV1, VaultMetaV1, active_slot_eq, SlotId,
  EncryptedVaultSlotV1,
}
use package.pocket_vault.Platform.{Platform}
use package.pocket_vault.Vault.{UnlockedVault, add_entry, push_entry, update_entry, delete_entry}
use package.pocket_vault.Model.Spec.{ContainerIsSound}
use package.pocket_vault.Vault.Invariant.{
  add_entry-IsSound, update_entry-IsSound, delete_entry-IsSound,
}
use package.pocket_vault.Storage.Adapter.{DeviceStorage, active_slot_key}
use package.pocket_vault.Storage.Json.{write_json_verified}
use package.pocket_vault.Storage.Repository.{pointer_to, open_vault}
use package.pocket_vault.Storage.Reference.{Shows, open_vault-open_view}
use package.pocket_vault.Storage.Recovery.{OpensTo}
use package.pocket_vault.Storage.Holding.{InStep, Holds}
use package.pocket_vault.Vault.Edits.{Edit, adding, updating, deleting, edit}

-- Nothing of a session but its entries and its time of change differs.
pub record SameVault (vault vault' : UnlockedVault) : Type 0 where
  pub dek : vault'.dek ≡ vault.dek
  pub place : vault'.persisted_slot ≡ vault.persisted_slot
  pub owner : vault'.container.vault_id ≡ vault.container.vault_id
  pub born : vault'.container.created_at ≡ vault.container.created_at
  pub generation : vault'.container.generation ≡ vault.container.generation

pub edit-SameVault :
    {R : Type 0} (platform : Platform R) (e : Edit) (vault : UnlockedVault) (rng : R)
    → ContainerIsSound vault.container
    → SameVault vault (edit platform e vault rng).0
      × ContainerIsSound (edit platform e vault rng).0.container
unfolding add_entry push_entry update_entry delete_entry
edit-SameVault platform (adding input now) vault rng sound =
    (ground arith, add_entry-IsSound platform vault input now rng sound)
edit-SameVault platform (updating input now) vault rng sound =
    (ground arith, update_entry-IsSound input now vault sound)
edit-SameVault platform (deleting id now) vault rng sound =
    (ground arith, delete_entry-IsSound id now vault sound)

pub SameVault-Holds :
    {R : Type 0} (platform : Platform R) (view : String → Option String) (password : Bytes)
    (meta : VaultMetaV1) (vault : UnlockedVault) (committed : VaultContainerV1)
    → Holds platform view password meta vault committed
    → (vault' : UnlockedVault) → SameVault vault vault'
    → ContainerIsSound vault'.container
    → Holds platform view password meta vault' committed
SameVault-Holds platform view password meta vault committed h vault' same sound = record {
  sound = sound;
  owner = same.owner ∙ h.owner;
  born = same.born ∙ h.born;
  same_generation = h.same_generation ∙ sym same.generation;
  meta_in = rw same.dek h.meta_in;
  slot_in = rw (same.dek, same.place) h.slot_in;
}

module _ {R : Type 0} (platform : Platform R) (view : String → Option String) (password : Bytes)
    (meta : VaultMetaV1) (vault : UnlockedVault) (committed : VaultContainerV1)
    (h : InStep platform view password meta vault committed) where
  SameVault-InStep :
      (vault' : UnlockedVault)
      → SameVault vault vault'
      → ContainerIsSound vault'.container
      → InStep platform view password meta vault' committed
  SameVault-InStep vault' same sound = record {
    sound = sound;
    owner = same.owner ∙ h.owner;
    born = same.born ∙ h.born;
    same_generation = h.same_generation ∙ sym same.generation;
    meta_in = rw same.dek h.meta_in;
    slot_in = rw (same.dek, same.place) h.slot_in;
    older = rw (same.place, same.generation) h.older;
  }

  -- Adding, updating and deleting entries, with success or not, keep a session in step with the
  -- storage: what is committed there stays recoverable, and the next save starts from a sound state.
  pub edits-InStep :
      (now : ℕ)
      → ((input : NewVaultEntry) (rng : R)
          → InStep platform view password meta (add_entry platform vault input now rng).1 committed)
        × ((input : UpdateVaultEntry)
            → InStep platform view password meta (update_entry input now vault).1 committed)
        × ((id : EntryId)
            → InStep platform view password meta (delete_entry id now vault).1 committed)
  unfolding add_entry push_entry update_entry delete_entry
  edits-InStep now = (
    λ input rng.
        SameVault-InStep (add_entry platform vault input now rng).1 (ground arith)
          (add_entry-IsSound platform vault input now rng h.sound),
    λ input.
        SameVault-InStep (update_entry input now vault).1 (ground arith)
          (update_entry-IsSound input now vault h.sound),
    λ id.
        SameVault-InStep (delete_entry id now vault).1 (ground arith)
          (delete_entry-IsSound id now vault h.sound),
  )

-- Where every read succeeds and the reference decides for a container, `open` returns it, with the
-- session's key and slot; or it fails to rewrite a stale pointer, and reports that failure.
pub OpensTo-open_vault :
    {R S : Type 0} (platform : Platform R) (store : DeviceStorage S) (view : String → Option String)
    (s : S) (password dek : Bytes) (place : SlotId) (container : VaultContainerV1)
    → Shows platform store s view
    → OpensTo platform view password dek place container
    → ((repaired : Bool) × ((open_vault platform store password s).0
          ≡ ok (record {
            vault = record { container = container; dek = dek; persisted_slot = place };
            active_pointer_repaired = repaired;
          })))
      ⊎ ((e : VaultError) × (slot : EncryptedVaultSlotV1) × ((write_json_verified store
              platform.pointer_json active_slot_key
              (pointer_to slot)
              1024
              s).0
            ≡ err e)
          × ((open_vault platform store password s).0 ≡ err e))
OpensTo-open_vault platform store view s password dek place container shows o =
    let decided = open_vault-open_view platform store password s view shows in
    let slot = o.choice.chosen.0 in
    elim (Bool-cases (o.choice.pointer == some (pointer_to slot))) [
      | inl current ↦
          inl (false, ground (arith, decided, o.decided, current, o.key, o.from, o.contents))
      | inr stale ↦
          elim (Result-cases
            (write_json_verified store platform.pointer_json active_slot_key (pointer_to slot) 1024
              s).0) [
                | inl (done, wrote) ↦ inl (
                  true,
                  ground (arith, decided, o.decided, stale, wrote, o.key, o.from, o.contents),
                )
                | inr (e, failed) ↦
                    inr (e, slot, failed, ground (arith, decided, o.decided, stale, failed))
              ]
    ]
