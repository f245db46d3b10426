-- ===== src/Bridge/Journal.antt =====
-- crates/vault-wasm/src/bridge.rs: what is known of a pending save and of the storage beside the
-- bridge.
use package.pocket_vault.Base.{
  ◌+◌, ◌≤◌, ◌≡◌, ◌∙◌, sym, inl, inr, refl, String, Bytes, List, ◌∷◌, true, some, ok, len, string_eq,
}
use package.pocket_vault.Model.{SlotId, slot_a, slot_b, other, VaultMetaV1, VaultContainerV1}
use package.pocket_vault.Platform.{Platform, PlatformLaws}
use package.pocket_vault.Vault.{UnlockedVault, at_generation, verify_next_slot}
use package.pocket_vault.Vault.Commits.{advanced, verify_next_slot_iff, at_generation-IsSound}
use package.pocket_vault.Storage.{slot_key, meta_key}
use package.pocket_vault.Storage.Holding.{
  InStep, Holds, Holds-view, Holds-OlderAt, decode_stored-TextOf, other-other,
}
use package.pocket_vault.Storage.Recovery.{SlotIn}
use package.pocket_vault.Storage.Recoverable.{Recoverable}
use package.pocket_vault.Bridge.State.{PendingSave, VaultBridge}
use package.pocket_vault.Bridge.Opening.{StorageSnapshot}
use package.pocket_vault.Bridge.Loading.{view_of, view_of_lem}

-- The storage after a text was written under the key of a slot.
abbrev pub with_slot : SlotId → String → StorageSnapshot → StorageSnapshot
with_slot slot_a text s = record s { slot_a_json = some text }
with_slot slot_b text s = record s { slot_b_json = some text }

pub view_of-with_slot :
    (place : SlotId) (text : String) (s : StorageSnapshot)
    → (view_of (with_slot place text s) meta_key ≡ view_of s meta_key)
      × (view_of (with_slot place text s) (slot_key place) ≡ some text)
      × (view_of (with_slot place text s) (slot_key (other place))
          ≡ view_of s (slot_key (other place)))
unfolding other
view_of-with_slot slot_a text s =
    let (m, a, b, p) = view_of_lem s in
    let (m', a', b', p') = view_of_lem (with_slot slot_a text s) in (m' ∙ sym m, a', b' ∙ sym b)
view_of-with_slot slot_b text s =
    let (m, a, b, p) = view_of_lem s in
    let (m', a', b', p') = view_of_lem (with_slot slot_b text s) in (m' ∙ sym m, b', a' ∙ sym a)

-- Neither the metadata nor the slots change with the pointer's text.
pub meta-with_pointer :
    (text : String) (s : StorageSnapshot)
    → view_of (record s { active_pointer_json = some text }) meta_key ≡ view_of s meta_key
meta-with_pointer text s =
    (view_of_lem (record s { active_pointer_json = some text })).0 ∙ sym ((view_of_lem s).0)

pub slots-with_pointer :
    (text : String) (s : StorageSnapshot) (place : SlotId)
    → view_of (record s { active_pointer_json = some text }) (slot_key place)
      ≡ view_of s (slot_key place)
slots-with_pointer text s slot_a =
    (view_of_lem (record s { active_pointer_json = some text })).1 ∙ sym ((view_of_lem s).1)
slots-with_pointer text s slot_b =
    (view_of_lem (record s { active_pointer_json = some text })).2 ∙ sym ((view_of_lem s).2)

module _ {R : Type 0} (platform : Platform R) where
  -- A save that is pending on a session.
  pub record PendingIn (s : StorageSnapshot) (vault : UnlockedVault) (p : PendingSave)
      : Type 0 where
    pub verifies : verify_next_slot platform vault p.slot ≡ ok tt
    pub encoded : platform.slot_json.encode p.slot ≡ some p.slot_json
    pub target : p.active_pointer.slot ≡ other vault.persisted_slot
    pub stored :
        p.slot_verified ≡ true
        → (view_of s (slot_key (other vault.persisted_slot)) ≡ some p.slot_json)
          × (len p.slot_json ≤ 5242880)

  -- What holds of the bridge and the storage at every point.
  pub record Journal (password : Bytes) (meta : VaultMetaV1) (b : VaultBridge) (s : StorageSnapshot)
      (committed : VaultContainerV1) (tried : List VaultContainerV1) : Type 0 where
    pub vault : UnlockedVault
    pub present : b.vault ≡ some vault
    pub recoverable : Recoverable platform (view_of s) password meta vault committed tried
    pub pending : (p : PendingSave) → b.pending ≡ some p → PendingIn s vault p

  module _ (promises : PlatformLaws platform) where
    -- The slot of a pending save, where its text is stored.
    pub PendingIn-SlotIn :
        (s : StorageSnapshot) (password : Bytes) (meta : VaultMetaV1) (vault : UnlockedVault)
        (committed : VaultContainerV1) (p : PendingSave)
        → Holds platform (view_of s) password meta vault committed
        → PendingIn s vault p
        → (s' : StorageSnapshot)
        → view_of s' (slot_key (other vault.persisted_slot)) ≡ some p.slot_json
        → len p.slot_json ≤ 5242880
        → SlotIn platform
            (view_of s')
            meta
            vault.dek
            (other vault.persisted_slot)
            (at_generation vault.container (vault.container.generation + 1))
    PendingIn-SlotIn s password meta vault committed p held q s' stored fits =
        let (_, place, at, envelope, opens) =
          (verify_next_slot_iff platform vault p.slot).0 q.verifies in
        record {
          slot = p.slot;
          readable = rw stored (
              decode_stored-TextOf platform.slot_json promises.slot_laws p.slot 5242880 p.slot_json
                (record { encoded = q.encoded; bounded = fits }));
          in_place = place;
          sound = rw (← held.owner) envelope;
          opens = opens;
          generation_lem = at;
          born = held.born;
        }

    -- Storing the text of the pending slot keeps what was known, and adds the session's container to
    -- those that may be found.
    pub stores-Recoverable :
        (s : StorageSnapshot) (password : Bytes) (meta : VaultMetaV1) (vault : UnlockedVault)
        (committed : VaultContainerV1) (tried : List VaultContainerV1) (p : PendingSave)
        → Recoverable platform (view_of s) password meta vault committed tried
        → PendingIn s vault p
        → len p.slot_json ≤ 5242880
        → Recoverable platform
            (view_of (with_slot (other vault.persisted_slot) p.slot_json s))
            password
            meta
            vault
            committed
            (at_generation vault.container (vault.container.generation + 1) ∷ tried)
    stores-Recoverable s password meta vault committed tried p h q fits =
        let s' = with_slot (other vault.persisted_slot) p.slot_json s in
        let (at_meta, at_target, at_old) =
          view_of-with_slot (other vault.persisted_slot) p.slot_json s in
        record {
          held =
              Holds-view platform (view_of s) (view_of s') password meta vault committed at_meta
                (rw other-other at at_old) h.held;
          beside = inr (record {
            container = at_generation vault.container (vault.container.generation + 1);
            listed = inl refl;
            at = refl;
            slot_in = PendingIn-SlotIn s password meta vault committed p h.held q s' at_target fits;
          });
        }

    -- Committing a save that was verified leaves the session in step with the storage.
    pub commits-InStep :
        (s : StorageSnapshot) (password : Bytes) (meta : VaultMetaV1) (vault : UnlockedVault)
        (committed : VaultContainerV1) (p : PendingSave)
        → Holds platform (view_of s) password meta vault committed
        → PendingIn s vault p
        → p.slot_verified ≡ true
        → InStep platform
            (view_of s)
            password
            meta
            (advanced vault)
            (at_generation vault.container (vault.container.generation + 1))
    commits-InStep s password meta vault committed p held q verified =
        let (stored, fits) = q.stored verified in
        record {
          sound = at_generation-IsSound vault.container (vault.container.generation + 1) held.sound;
          owner = held.owner;
          born = held.born;
          same_generation = refl;
          meta_in = held.meta_in;
          slot_in = PendingIn-SlotIn s password meta vault committed p held q s stored fits;
          older = Holds-OlderAt platform (view_of s) password meta vault committed held;
        }
