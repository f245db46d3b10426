-- ===== src/Storage/Holding.antt =====
-- crates/vault-core/src/storage.rs: a session and the storage that it was saved in.
use package.pocket_vault.Base.{ℕ, ◌+◌, ◌≡◌, refl, ◌∙◌, ap, String, Bytes, Option, some, ok, arith}
use package.pocket_vault.Model.{
  SlotId, slot_a, slot_b, other, EncryptedVaultSlotV1, VaultContainerV1, VaultMetaV1,
}
use package.pocket_vault.Model.Spec.{ContainerIsSound}
use package.pocket_vault.Platform.{Platform, PlatformLaws, Codec, CodecLaws}
use package.pocket_vault.Vault.{UnlockedVault, at_generation, encrypt_for_slot_at_generation}
use package.pocket_vault.Vault.Commits.{encrypt_at_generation_lem}
use package.pocket_vault.Storage.Adapter.{meta_key, DeviceStorage, StorageLaws, slot_key}
use package.pocket_vault.Storage.Json.{decode_stored}
use package.pocket_vault.Storage.Effects.{TextOf}
use package.pocket_vault.Storage.Repository.{save}
use package.pocket_vault.Storage.Save.{save_keeps_committed, next_generation-eq-ok}
use package.pocket_vault.Storage.SaveSlot.{Sealed}
use package.pocket_vault.Storage.Recovery.{SlotIn-view, MetaIn-view, SlotIn, OlderAt, MetaIn}

-- The state between two saves: the storage holds the metadata and the committed container under the
-- session's slot, a readable slot under the other key is older, and the session's container, which
-- may have been edited since, is sound and of the same vault and generation.
pub record InStep {R : Type 0} (platform : Platform R) (view : String → Option String)
    (password : Bytes) (meta : VaultMetaV1) (vault : UnlockedVault) (committed : VaultContainerV1)
    : Type 0 where
  pub sound : ContainerIsSound vault.container
  pub owner : vault.container.vault_id ≡ meta.vault_id
  pub born : vault.container.created_at ≡ meta.created_at
  pub same_generation : committed.generation ≡ vault.container.generation
  pub meta_in : MetaIn platform view password meta vault.dek
  pub slot_in : SlotIn platform view meta vault.dek vault.persisted_slot committed
  pub older : OlderAt platform view meta (other vault.persisted_slot) vault.container.generation

-- The same, whatever stands under the other key.
pub record Holds {R : Type 0} (platform : Platform R) (view : String → Option String)
    (password : Bytes) (meta : VaultMetaV1) (vault : UnlockedVault) (committed : VaultContainerV1)
    : Type 0 where
  pub sound : ContainerIsSound vault.container
  pub owner : vault.container.vault_id ≡ meta.vault_id
  pub born : vault.container.created_at ≡ meta.created_at
  pub same_generation : committed.generation ≡ vault.container.generation
  pub meta_in : MetaIn platform view password meta vault.dek
  pub slot_in : SlotIn platform view meta vault.dek vault.persisted_slot committed

pub InStep-Holds :
    {R : Type 0} (platform : Platform R) (view : String → Option String) (password : Bytes)
    (meta : VaultMetaV1) (vault : UnlockedVault) (committed : VaultContainerV1)
    → InStep platform view password meta vault committed
    → Holds platform view password meta vault committed
InStep-Holds platform view password meta vault committed h = record {
  sound = h.sound;
  owner = h.owner;
  born = h.born;
  same_generation = h.same_generation;
  meta_in = h.meta_in;
  slot_in = h.slot_in;
}

-- Both carry over to a view that shows the same under the keys that they read.
pub Holds-view :
    {R : Type 0} (platform : Platform R) (view view' : String → Option String) (password : Bytes)
    (meta : VaultMetaV1) (vault : UnlockedVault) (committed : VaultContainerV1)
    → view' meta_key ≡ view meta_key
    → view' (slot_key vault.persisted_slot) ≡ view (slot_key vault.persisted_slot)
    → Holds platform view password meta vault committed
    → Holds platform view' password meta vault committed
Holds-view platform view view' password meta vault committed same_meta same_slot h = record {
  sound = h.sound;
  owner = h.owner;
  born = h.born;
  same_generation = h.same_generation;
  meta_in = MetaIn-view platform view view' password meta vault.dek same_meta h.meta_in;
  slot_in =
      SlotIn-view platform view view' meta vault.dek vault.persisted_slot committed same_slot
        h.slot_in;
}

pub InStep-view :
    {R : Type 0} (platform : Platform R) (view view' : String → Option String) (password : Bytes)
    (meta : VaultMetaV1) (vault : UnlockedVault) (committed : VaultContainerV1)
    → view' meta_key ≡ view meta_key
    → ((place : SlotId) → view' (slot_key place) ≡ view (slot_key place))
    → InStep platform view password meta vault committed
    → InStep platform view' password meta vault committed
InStep-view platform view view' password meta vault committed same_meta same_slots h =
    let held =
      Holds-view platform view view' password meta vault committed same_meta
        (same_slots vault.persisted_slot)
        (InStep-Holds platform view password meta vault committed h) in
    record {
      sound = h.sound;
      owner = h.owner;
      born = h.born;
      same_generation = h.same_generation;
      meta_in = held.meta_in;
      slot_in = held.slot_in;
      older = λ x readable. h.older x (rw (same_slots (other vault.persisted_slot)) at readable);
    }

pub decode_stored-TextOf :
    {T : Type 0} (codec : Codec T String) (laws : CodecLaws codec) (value : T) (limit : ℕ)
    (text : String)
    → TextOf codec value limit text
    → decode_stored codec limit (some text) ≡ ok (some value)
decode_stored-TextOf codec laws value limit text t =
    ground (arith, laws.decode-encode value text t.encoded, t.bounded)

pub other-other : (place : SlotId) → other (other place) ≡ place
unfolding other
other-other slot_a = refl
other-other slot_b = refl

-- The committed slot, where a newer one stands beside it.
pub Holds-OlderAt :
    {R : Type 0} (platform : Platform R) (view : String → Option String) (password : Bytes)
    (meta : VaultMetaV1) (vault : UnlockedVault) (committed : VaultContainerV1)
    → Holds platform view password meta vault committed
    → OlderAt platform view meta
        (other (other vault.persisted_slot))
        (vault.container.generation + 1)
Holds-OlderAt platform view password meta vault committed h x readable =
    let old = h.slot_in in
    let here = rw other-other at readable in
    let same : x ≡ old.slot = ground (arith, here, old.readable) in
    let at : x.generation ≡ old.slot.generation =
      ap (λ (y : EncryptedVaultSlotV1). y.generation) same in
    omega (arith, at, old.generation_lem, h.same_generation)

module _ {R S : Type 0} (platform : Platform R) (promises : PlatformLaws platform)
    {store : DeviceStorage S} (laws : StorageLaws store) where
  open laws use {peek}

  -- After a save, of any outcome, the metadata and the committed slot are where they were.
  pub kept :
      (vault : UnlockedVault) (rng : R) (s : S) (password : Bytes) (meta : VaultMetaV1)
      (committed : VaultContainerV1)
      → Holds platform (peek s) password meta vault committed
      → Holds platform (peek (save platform store vault rng s).3) password meta vault committed
  kept vault rng s password meta committed h =
      let view = peek (save platform store vault rng s).3 in
      let (same_meta, same_slot) = save_keeps_committed platform laws vault rng s in
      Holds-view platform (peek s) view password meta vault committed same_meta same_slot h

  -- A text of the slot that the save sealed is the session's container, one generation on.
  pub Sealed-SlotIn :
      (vault : UnlockedVault) (rng : R) (view : String → Option String) (password : Bytes)
      (meta : VaultMetaV1) (text : String)
      → ContainerIsSound vault.container
      → vault.container.vault_id ≡ meta.vault_id
      → vault.container.created_at ≡ meta.created_at
      → Sealed platform laws vault rng text
      → view (slot_key (other vault.persisted_slot)) ≡ some text
      → SlotIn platform view meta vault.dek
          (other vault.persisted_slot)
          (at_generation vault.container (vault.container.generation + 1))
  Sealed-SlotIn vault rng view password meta text sound owner born z stored =
      let grown = next_generation-eq-ok vault z.next z.grown in
      let (opens, envelope, place, at) =
        encrypt_at_generation_lem platform promises vault (other vault.persisted_slot) z.next rng
          (encrypt_for_slot_at_generation platform vault (other vault.persisted_slot) z.next rng).1
          z.slot sound (ground (arith, z.sealed)) in
      record {
        slot = z.slot;
        readable = rw stored (
            decode_stored-TextOf platform.slot_json promises.slot_laws z.slot 5242880 text
              z.is_text);
        in_place = place;
        sound = rw (← owner) envelope;
        opens = rw (← grown) opens;
        generation_lem = at ∙ grown;
        born = born;
      }
