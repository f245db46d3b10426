-- ===== src/Bridge/History.antt =====
-- crates/vault-wasm/src/bridge.rs: an open session and the browser's storage, one call and one
-- write after another.
use package.pocket_vault.Base.{
  ◌+◌, ◌≤◌, ◌≡◌, ◌⊎◌, inl, inr, refl, String, Bytes, List, [], ◌∷◌, Elem, none, some, ok, err, len,
  arith, string_eq, if◌then◌else◌,
}
use package.pocket_vault.Model.{VaultMetaV1, VaultContainerV1, EncryptedVaultSlotV1}
use package.pocket_vault.Platform.{Platform, PlatformLaws}
use package.pocket_vault.Encoding.{Base64}
use package.pocket_vault.Vault.{UnlockedVault, at_generation}
use package.pocket_vault.Storage.{
  slot_key, active_slot_key, memory_storage, memory_storage_laws, pointer_to, write_json_verified,
  raw, open_vault,
}
use package.pocket_vault.Storage.Recoverable.{InStep-Recoverable}
use package.pocket_vault.Storage.Holding.{InStep}
use package.pocket_vault.Bridge.State.{
  PendingSave, VaultBridge, BridgeError, in_vault, cancel_pending_save,
}
use package.pocket_vault.Bridge.Saving.{prepare_save, verify_pending_slot, commit_pending_save}
use package.pocket_vault.Bridge.Opening.{StorageSnapshot, OpenBundle, open_session, load}
use package.pocket_vault.Bridge.Loading.{view_of, Shows-view_of, stored_meta, session_of}
use package.pocket_vault.Bridge.Editing.{Call, call}
use package.pocket_vault.Bridge.JournalWrites.{stores_slot-Journal, stores_pointer-Journal}
use package.pocket_vault.Bridge.JournalSteps.{
  call-Journal, prepare_save-Journal, verify_pending_slot-Journal, commit_pending_save-Journal,
  refused-Journal, cancel-Journal,
}
use package.pocket_vault.Bridge.JournalOpen.{open_session-Journal}
use package.pocket_vault.Storage.Reopening.{open_vault-committed}
use package.pocket_vault.Error.{VaultError}
use package.pocket_vault.Bridge.Journal.{with_slot, Journal}

module _ {R : Type 0} (platform : Platform R) (base64 : Base64) (password : Bytes) where
  -- What a bridge and the storage come to, with the container last committed or opened and those
  -- whose slots were written since. The caller edits, prepares a save, writes the prepared slot,
  -- hands back what it read under the slot's key, writes any text for the pointer, hands back any
  -- text for the pointer, cancels, or drops the bridge for one that it opens; slot texts are within
  -- the limit.
  pub data BridgeHistory (b : VaultBridge) (s : StorageSnapshot) (committed : VaultContainerV1)
      : VaultBridge → StorageSnapshot → VaultContainerV1 → List VaultContainerV1 → Type 0 where
    begins : BridgeHistory b s committed b s committed []
    calls :
        (x : VaultBridge) (t : StorageSnapshot) (c : VaultContainerV1)
        (tried : List VaultContainerV1)
        → BridgeHistory b s committed x t c tried
        → (e : Call) (rng : R)
        → BridgeHistory b s committed (call platform base64 e x rng) t c tried
    prepares :
        (x : VaultBridge) (t : StorageSnapshot) (c : VaultContainerV1)
        (tried : List VaultContainerV1)
        → BridgeHistory b s committed x t c tried
        → (rng : R) → BridgeHistory b s committed (prepare_save platform x rng).1 t c tried
    stores_slot :
        (x : VaultBridge) (t : StorageSnapshot) (c : VaultContainerV1)
        (tried : List VaultContainerV1)
        → BridgeHistory b s committed x t c tried
        → (p : PendingSave) (vault : UnlockedVault) → x.pending ≡ some p
        → x.vault ≡ some vault
        → len p.slot_json ≤ 5242880
        → BridgeHistory b s committed x
            (with_slot p.active_pointer.slot p.slot_json t)
            c
            (at_generation vault.container (vault.container.generation + 1) ∷ tried)
    verifies :
        (x : VaultBridge) (t : StorageSnapshot) (c : VaultContainerV1)
        (tried : List VaultContainerV1)
        → BridgeHistory b s committed x t c tried
        → (p : PendingSave) (text : String) → x.pending ≡ some p
        → view_of t (slot_key p.active_pointer.slot) ≡ some text
        → len text ≤ 5242880
        → BridgeHistory b s committed (verify_pending_slot platform text x).1 t c tried
    commits :
        (x : VaultBridge) (t : StorageSnapshot) (c : VaultContainerV1)
        (tried : List VaultContainerV1)
        → BridgeHistory b s committed x t c tried
        → (vault : UnlockedVault) (text : String) → x.vault ≡ some vault
        → (commit_pending_save platform text x).0 ≡ ok tt
        → BridgeHistory b s committed
            (commit_pending_save platform text x).1
            t
            (at_generation vault.container (vault.container.generation + 1))
            []
    refuses :
        (x : VaultBridge) (t : StorageSnapshot) (c : VaultContainerV1)
        (tried : List VaultContainerV1)
        → BridgeHistory b s committed x t c tried
        → (text : String) (e : BridgeError) → (commit_pending_save platform text x).0 ≡ err e
        → BridgeHistory b s committed (commit_pending_save platform text x).1 t c tried
    cancels :
        (x : VaultBridge) (t : StorageSnapshot) (c : VaultContainerV1)
        (tried : List VaultContainerV1)
        → BridgeHistory b s committed x t c tried
        → BridgeHistory b s committed (cancel_pending_save x) t c tried
    reopens :
        (x : VaultBridge) (t : StorageSnapshot) (c : VaultContainerV1)
        (tried : List VaultContainerV1)
        → BridgeHistory b s committed x t c tried
        → (bundle : OpenBundle) (v : UnlockedVault) → open_session platform password t ≡ ok bundle
        → bundle.session.vault ≡ some v
        → BridgeHistory b s committed bundle.session t v.container []
    stores_pointer :
        (x : VaultBridge) (t : StorageSnapshot) (c : VaultContainerV1)
        (tried : List VaultContainerV1)
        → BridgeHistory b s committed x t c tried
        → (text : String)
        → BridgeHistory b s committed x (record t { active_pointer_json = some text }) c tried

  module _ (promises : PlatformLaws platform) (meta : VaultMetaV1) where
    History-Journal :
        (b : VaultBridge) (s : StorageSnapshot) (committed : VaultContainerV1) (x : VaultBridge)
        (t : StorageSnapshot) (c : VaultContainerV1) (tried : List VaultContainerV1)
        → Journal platform password meta b s committed []
        → BridgeHistory b s committed x t c tried
        → Journal platform password meta x t c tried
    History-Journal b s committed _ _ _ _ j begins = j
    History-Journal b s committed _ t c tried j (calls x _ _ _ past e rng) =
        call-Journal platform promises password meta x t c tried
          (History-Journal b s committed x t c tried j past) base64 e rng
    History-Journal b s committed _ t c tried j (prepares x _ _ _ past rng) =
        prepare_save-Journal platform promises password meta x t c tried
          (History-Journal b s committed x t c tried j past) rng
    History-Journal b s committed x _ c _ j
          (stores_slot _ t _ tried past p vault pending present fits) =
        stores_slot-Journal platform promises password meta x t c tried
          (History-Journal b s committed x t c tried j past) p vault pending present fits
    History-Journal b s committed x _ c tried j (stores_pointer _ t _ _ past text) =
        stores_pointer-Journal platform promises password meta x t c tried
          (History-Journal b s committed x t c tried j past) text
    History-Journal b s committed _ t c tried j (verifies x _ _ _ past p text pending stored fits) =
        verify_pending_slot-Journal platform promises password meta x t c tried
          (History-Journal b s committed x t c tried j past) p text pending stored fits
    History-Journal b s committed _ t _ _ j (commits x _ c tried past vault text present done) =
        commit_pending_save-Journal platform promises password meta x t c tried
          (History-Journal b s committed x t c tried j past) vault text present done
    History-Journal b s committed _ t c tried j (refuses x _ _ _ past text e failed) =
        refused-Journal platform promises password meta x t c tried
          (History-Journal b s committed x t c tried j past) text e failed
    History-Journal b s committed _ t c tried j (cancels x _ _ _ past) =
        cancel-Journal platform promises password meta x t c tried
          (History-Journal b s committed x t c tried j past)
    History-Journal b s committed _ t _ _ j (reopens x _ c tried past bundle v opens present) =
        open_session-Journal platform password meta x t c tried
          (History-Journal b s committed x t c tried j past) bundle v opens present

    -- A bridge without a pending save, whose session is in step with the storage, is used, and its
    -- caller writes what it prepares, in any order and stopping anywhere: edits, preparations,
    -- writes of the prepared slot, whose text is within the limit, and of any pointer,
    -- verifications of what was read back, commits with any text, cancellations, and dropping the
    -- bridge for one that is opened again. Opening the storage then returns the container that was
    -- last committed or opened, or one whose slot was written since; it fails only where the
    -- pointer cannot be rewritten.
    pub bridge_recovers :
        (b : VaultBridge) (s : StorageSnapshot) (vault : UnlockedVault)
        (committed : VaultContainerV1) (x : VaultBridge) (t : StorageSnapshot)
        (c : VaultContainerV1) (tried : List VaultContainerV1)
        → InStep platform (view_of s) password meta vault committed
        → b.vault ≡ some vault
        → b.pending ≡ none
        → BridgeHistory b s committed x t c tried
        → ((bundle : OpenBundle) × (v : UnlockedVault) × (open_session platform password t
              ≡ ok bundle)
            × (bundle.session.vault ≡ some v)
            × ((v.container ≡ c) ⊎ Elem v.container tried))
          ⊎ ((e : VaultError) × (slot : EncryptedVaultSlotV1) × ((write_json_verified memory_storage
                  platform.pointer_json active_slot_key
                  (pointer_to slot)
                  1024
                  (load t)).0
                ≡ err e)
              × (open_session platform password t ≡ err (in_vault e)))
    unfolding open_session memory_storage_laws
    bridge_recovers b s vault committed x t c tried h present idle past =
        let start : Journal platform password meta b s committed [] = record {
          vault = vault;
          present = present;
          recoverable = InStep-Recoverable platform (view_of s) password meta vault committed h;
          pending = λ p pending. absurd (cc);
        } in
        let j = History-Journal b s committed x t c tried start past in
        let (text, there, decoded) =
          stored_meta platform t meta j.recoverable.held.meta_in.readable in
        elim (open_vault-committed platform memory_storage_laws password meta j.vault (load t)
          (view_of t) c tried (Shows-view_of platform t) j.recoverable) [
            | inl (o, opened, contents) ↦ inl (
              record {
                session = session_of o.vault meta;
                repaired_pointer_json =
                    if o.active_pointer_repaired
                    then raw (open_vault platform memory_storage password (load t)).1
                        active_slot_key
                    else none;
              },
              o.vault,
              ground (arith, there, decoded, opened),
              refl,
              contents,
            )
            | inr (e, slot, failed, refused) ↦
                inr (e, slot, failed, ground (arith, there, decoded, refused))
          ]
