-- ===== src/Bridge/JournalWrites.antt =====
-- crates/vault-wasm/src/bridge.rs: each write of the bridge's caller keeps what is known of the
-- storage.
use package.pocket_vault.Base.{
  ◌+◌, ◌≤◌, ◌≡◌, ◌∙◌, String, Bytes, List, ◌∷◌, some, len, arith, string_eq,
}
use package.pocket_vault.Model.{other, VaultMetaV1, VaultContainerV1}
use package.pocket_vault.Platform.{Platform, PlatformLaws}
use package.pocket_vault.Vault.{UnlockedVault, at_generation}
use package.pocket_vault.Storage.Recoverable.{Recoverable-view}
use package.pocket_vault.Bridge.State.{PendingSave, VaultBridge}
use package.pocket_vault.Bridge.Opening.{StorageSnapshot}
use package.pocket_vault.Bridge.Loading.{view_of}
use package.pocket_vault.Bridge.Journal.{
  with_slot, view_of-with_slot, meta-with_pointer, slots-with_pointer, Journal, stores-Recoverable,
}

module _ {R : Type 0} (platform : Platform R) (promises : PlatformLaws platform) (password : Bytes)
    (meta : VaultMetaV1) (b : VaultBridge) (s : StorageSnapshot) (committed : VaultContainerV1)
    (tried : List VaultContainerV1) (j : Journal platform password meta b s committed tried) where
  pub same_vault : (vault : UnlockedVault) → b.vault ≡ some vault → vault ≡ j.vault
  same_vault vault present = ground (arith, present, j.present)

  pub stores_slot-Journal :
      (p : PendingSave) (vault : UnlockedVault)
      → b.pending ≡ some p
      → b.vault ≡ some vault
      → len p.slot_json ≤ 5242880
      → Journal platform password meta b
          (with_slot p.active_pointer.slot p.slot_json s)
          committed
          (at_generation vault.container (vault.container.generation + 1) ∷ tried)
  stores_slot-Journal p vault pending present fits =
      let q = j.pending p pending in
      let stored = view_of-with_slot (other j.vault.persisted_slot) p.slot_json s in
      rw (same_vault vault present, q.target)
        (record {
          vault = j.vault;
          present = j.present;
          recoverable =
              stores-Recoverable platform promises s password meta j.vault committed tried p
                j.recoverable q fits;
          pending = λ p' h.
              let same : p ≡ p' = ground (arith, pending, h) in
              rw (← same) (record {
                verifies = q.verifies;
                encoded = q.encoded;
                target = q.target;
                stored = λ _. (stored.1, fits);
              });
        })

  pub stores_pointer-Journal :
      (text : String)
      → Journal platform password meta b
          (record s { active_pointer_json = some text })
          committed
          tried
  stores_pointer-Journal text =
      let s' : StorageSnapshot = record s { active_pointer_json = some text } in
      record {
        vault = j.vault;
        present = j.present;
        recoverable =
            Recoverable-view platform (view_of s) (view_of s') password meta j.vault committed tried
              (meta-with_pointer text s) (slots-with_pointer text s) j.recoverable;
        pending = λ p h.
            let q = j.pending p h in
            record {
              verifies = q.verifies;
              encoded = q.encoded;
              target = q.target;
              stored = λ verified.
                  let (stored, fits) = q.stored verified in
                  (slots-with_pointer text s (other j.vault.persisted_slot) ∙ stored, fits);
            };
      }
