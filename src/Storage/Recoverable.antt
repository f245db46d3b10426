-- ===== src/Storage/Recoverable.antt =====
-- crates/vault-core/src/storage.rs and vault.rs: what is always known of a storage that a
-- session is saved in: what opening it may return.
use package.pocket_vault.Base.{
  ◌+◌, ◌≡◌, ◌⊎◌, inl, inr, refl, String, Bytes, List, [], ◌∷◌, Elem, Option, err,
}
use package.pocket_vault.Error.{VaultError}
use package.pocket_vault.Model.{SlotId, other, VaultContainerV1, VaultMetaV1}
use package.pocket_vault.Platform.{Platform, PlatformLaws}
use package.pocket_vault.Vault.{UnlockedVault, at_generation}
use package.pocket_vault.Vault.Edits.{Edit, edit}
use package.pocket_vault.Storage.Adapter.{slot_key, meta_key, DeviceStorage, StorageLaws}
use package.pocket_vault.Storage.Repository.{save}
use package.pocket_vault.Storage.Save.{save_result}
use package.pocket_vault.Storage.SaveSlot.{save-peek_target}
use package.pocket_vault.Storage.Recovery.{SlotIn-view, SlotIn, OlderAt, OpensTo, SlotIn-OpensTo}
use package.pocket_vault.Storage.Holding.{
  Holds-view, InStep, Holds, InStep-Holds, kept, Sealed-SlotIn, Holds-OlderAt,
}
use package.pocket_vault.Storage.Lifecycle.{edit-SameVault, SameVault-Holds}

-- A slot beside the committed one holds what a save tried to write.
pub record TriedIn {R : Type 0} (platform : Platform R) (view : String → Option String)
    (meta : VaultMetaV1) (vault : UnlockedVault) (tried : List VaultContainerV1) : Type 0 where
  pub container : VaultContainerV1
  pub listed : Elem container tried
  pub at : container.generation ≡ vault.container.generation + 1
  pub slot_in : SlotIn platform view meta vault.dek (other vault.persisted_slot) container

module _ {R : Type 0} (platform : Platform R) where
  -- What holds at every point of a history.
  pub record Recoverable (view : String → Option String) (password : Bytes) (meta : VaultMetaV1)
      (vault : UnlockedVault) (committed : VaultContainerV1) (tried : List VaultContainerV1)
      : Type 0 where
    pub held : Holds platform view password meta vault committed
    pub beside :
        OlderAt platform view meta (other vault.persisted_slot) vault.container.generation
        ⊎ TriedIn platform view meta vault tried

  pub InStep-Recoverable :
      (view : String → Option String) (password : Bytes) (meta : VaultMetaV1)
      (vault : UnlockedVault) (committed : VaultContainerV1)
      → InStep platform view password meta vault committed
      → Recoverable view password meta vault committed []
  InStep-Recoverable view password meta vault committed h = record {
    held = InStep-Holds platform view password meta vault committed h;
    beside = inl h.older;
  }

  -- It carries over to a view that shows the same under the keys that it is about.
  pub Recoverable-view :
      (view view' : String → Option String) (password : Bytes) (meta : VaultMetaV1)
      (vault : UnlockedVault) (committed : VaultContainerV1) (tried : List VaultContainerV1)
      → view' meta_key ≡ view meta_key
      → ((place : SlotId) → view' (slot_key place) ≡ view (slot_key place))
      → Recoverable view password meta vault committed tried
      → Recoverable view' password meta vault committed tried
  Recoverable-view view view' password meta vault committed tried same_meta same_slots h = record {
    held =
        Holds-view platform view view' password meta vault committed same_meta
          (same_slots vault.persisted_slot) h.held;
    beside = elim h.beside [
      | inl older ↦
          inl (λ x readable. older x (rw (same_slots (other vault.persisted_slot)) at readable))
      | inr t ↦ inr (record {
        container = t.container;
        listed = t.listed;
        at = t.at;
        slot_in =
            SlotIn-view platform view view' meta vault.dek (other vault.persisted_slot) t.container
              (same_slots (other vault.persisted_slot)) t.slot_in;
      })
    ];
  }

  pub edit-Recoverable :
      (view : String → Option String) (password : Bytes) (meta : VaultMetaV1)
      (vault : UnlockedVault) (committed : VaultContainerV1) (tried : List VaultContainerV1)
      (e : Edit) (rng : R)
      → Recoverable view password meta vault committed tried
      → Recoverable view password meta (edit platform e vault rng).0 committed tried
  edit-Recoverable view password meta vault committed tried e rng h =
      let (same, sound) = edit-SameVault platform e vault rng h.held.sound in
      record {
        held =
            SameVault-Holds platform view password meta vault committed h.held
              (edit platform e vault rng).0 same sound;
        beside = elim h.beside [
          | inl older ↦ inl (rw (same.place, same.generation) older)
          | inr x ↦ inr (record {
            container = x.container;
            listed = x.listed;
            at = rw same.generation x.at;
            slot_in = rw (same.dek, same.place) x.slot_in;
          })
        ];
      }

  pub Recoverable-OpensTo :
      (view : String → Option String) (password : Bytes) (meta : VaultMetaV1)
      (vault : UnlockedVault) (committed : VaultContainerV1) (tried : List VaultContainerV1)
      → Recoverable view password meta vault committed tried
      → OpensTo platform view password vault.dek vault.persisted_slot committed
        ⊎ ((c : VaultContainerV1) × Elem c tried
            × OpensTo platform view password vault.dek (other vault.persisted_slot) c)
  Recoverable-OpensTo view password meta vault committed tried h = elim h.beside [
    | inl older ↦ inl (
        SlotIn-OpensTo platform view password vault.dek meta vault.persisted_slot committed
          h.held.meta_in h.held.slot_in
          (λ x readable. rw h.held.same_generation (older x readable)))
    | inr x ↦ inr (
      x.container,
      x.listed,
      SlotIn-OpensTo platform view password vault.dek meta (other vault.persisted_slot) x.container
          h.held.meta_in x.slot_in
          (rw x.at (Holds-OlderAt platform view password meta vault committed h.held)),
    )
  ]

module _ {R S : Type 0} (platform : Platform R) (promises : PlatformLaws platform)
    {store : DeviceStorage S} (laws : StorageLaws store) where
  open laws use {peek}

  pub failed-Recoverable :
      (password : Bytes) (meta : VaultMetaV1) (vault : UnlockedVault) (rng : R) (s : S)
      (committed : VaultContainerV1) (tried : List VaultContainerV1) (e : VaultError)
      → (save platform store vault rng s).0 ≡ err e
      → Recoverable platform (peek s) password meta vault committed tried
      → Recoverable platform
          (peek (save platform store vault rng s).3)
          password
          meta
          (save platform store vault rng s).1
          committed
          (at_generation vault.container (vault.container.generation + 1) ∷ tried)
  failed-Recoverable password meta vault rng s committed tried e stopped h =
      let view = peek (save platform store vault rng s).3 in
      let held = kept platform promises laws vault rng s password meta committed h.held in
      let same : (save platform store vault rng s).1 ≡ vault =
        elim (save_result platform laws vault rng s) [
          | inl (finished, _, _) ↦ absurd (cc)
          | inr (_, _, unmoved) ↦ unmoved
        ] in
      rw same (record {
        held = held;
        beside = elim (save-peek_target platform laws vault rng s) [
          | inl unchanged ↦ elim h.beside [
            | inl older ↦ inl (λ x readable. older x (rw unchanged at readable))
            | inr t ↦ inr (record {
              container = t.container;
              listed = inr t.listed;
              at = t.at;
              slot_in =
                  SlotIn-view platform (peek s) view meta vault.dek (other vault.persisted_slot)
                    t.container unchanged t.slot_in;
            })
          ]
          | inr (text, z, stored) ↦ inr (record {
            container = at_generation vault.container (vault.container.generation + 1);
            listed = inl refl;
            at = refl;
            slot_in =
                Sealed-SlotIn platform promises laws vault rng view password meta text held.sound
                  held.owner held.born z stored;
          })
        ];
      })
