-- ===== src/Bridge/Saving.antt =====
-- crates/vault-wasm/src/bridge.rs: the two-phase save and the password change. The caller writes
-- what a call prepared, and hands back what it read.
use package.pocket_vault.Base.{
  Bytes, String, true, false, none, some, Result, ok, err, ok_or, map_err, guard, ◌>>=◌, ◌>>◌, ◌==◌,
  string_eq,
}
use package.pocket_vault.Model.{
  SlotId, other, EncryptedVaultSlotV1, encrypted_slot_eq, ActiveSlotV1, active_slot_eq, VaultMetaV1,
  vault_meta_eq, default_config,
}
use package.pocket_vault.Platform.{Platform}
use package.pocket_vault.Vault.{
  UnlockedVault, encrypt_for_slot, verify_next_slot, commit_verified_slot, rewrap_vault_key,
}
use package.pocket_vault.Storage.{slot_key}
use package.pocket_vault.Bridge.State.{
  BridgeError, in_vault, locked, no_save_pending, pending_slot_not_verified, readback_mismatch,
  serialization, missing_metadata, no_password_change_pending, SaveBundle, PendingSave,
  PendingPasswordChange, VaultBridge, ensure_mutable,
}

module _ {R : Type 0} (platform : Platform R) where
  open platform use {meta_json, slot_json, pointer_json}

  -- What `prepare_save` makes of the slot that was encrypted.
  unfoldable pub plan_save : SlotId → EncryptedVaultSlotV1 → Result BridgeError PendingSave
  plan_save target slot =
      let pointer : ActiveSlotV1 = record {
        version = 1;
        slot = target;
        generation = slot.generation;
      } in
      ok_or (slot_json.encode slot) serialization >>= λ slot_text.
      ok_or (pointer_json.encode pointer) serialization >>= λ pointer_text. ok (record {
        slot = slot;
        slot_json = slot_text;
        active_pointer = pointer;
        active_pointer_json = pointer_text;
        slot_verified = false;
      })

  -- The bundle that names what the caller is to store.
  abbrev pub bundle_of : PendingSave → SaveBundle
  bundle_of pending = record {
    slot_name = slot_key pending.active_pointer.slot;
    slot_json = pending.slot_json;
    active_pointer_json = pending.active_pointer_json;
  }

  -- `prepare_save`: the result, the bridge and the random source after it.
  unfoldable pub prepare_save : VaultBridge → R → Result BridgeError SaveBundle × VaultBridge × R
  prepare_save bridge rng = elim (ensure_mutable bridge) [
    | err e ↦ (err e, bridge, rng)
    | ok vault ↦
        let (sealed, rng') = encrypt_for_slot platform vault (other vault.persisted_slot) rng in
        elim (map_err in_vault sealed >>= plan_save (other vault.persisted_slot)) [
          | err e ↦ (err e, bridge, rng')
          | ok pending ↦ (ok (bundle_of pending), record bridge { pending = some pending }, rng')
        ]
  ]

  -- The checks of `verify_pending_slot`, which yield the pending save.
  unfoldable pub check_slot : String → VaultBridge → Result BridgeError PendingSave
  check_slot readback_json bridge = ok_or bridge.vault locked >>= λ vault.
      ok_or bridge.pending no_save_pending >>= λ pending.
      guard (readback_json == pending.slot_json) readback_mismatch
      >> (ok_or (slot_json.decode readback_json) serialization >>= λ readback.
          guard (readback == pending.slot) readback_mismatch
          >> (map_err in_vault (verify_next_slot platform vault readback) >> ok pending))

  -- `verify_pending_slot`
  unfoldable pub verify_pending_slot :
      String → VaultBridge → Result BridgeError (Unit {0}) × VaultBridge
  verify_pending_slot readback_json bridge = elim (check_slot readback_json bridge) [
    | err e ↦ (err e, bridge)
    | ok pending ↦
        (ok tt, record bridge { pending = some (record pending { slot_verified = true }) })
  ]

  -- The checks of `commit_pending_save`, which yield the pending save and the session.
  unfoldable pub check_pointer :
      String → VaultBridge → Result BridgeError (PendingSave × UnlockedVault)
  check_pointer readback_json bridge = ok_or bridge.pending no_save_pending >>= λ pending.
      guard pending.slot_verified pending_slot_not_verified
      >> (guard (readback_json == pending.active_pointer_json) readback_mismatch
          >> (ok_or (pointer_json.decode readback_json) serialization >>= λ readback.
              guard (readback == pending.active_pointer) readback_mismatch
              >> (ok_or bridge.vault locked >>= λ vault. ok (pending, vault))))

  -- `commit_pending_save`
  unfoldable pub commit_pending_save :
      String → VaultBridge → Result BridgeError (Unit {0}) × VaultBridge
  commit_pending_save readback_json bridge = elim (check_pointer readback_json bridge) [
    | err e ↦ (err e, bridge)
    | ok checked ↦
        let (done, vault) = commit_verified_slot platform checked.0.slot checked.1 in
        elim done [
          | err e ↦ (err (in_vault e), record bridge { vault = some vault })
          | ok _ ↦ (ok tt, record bridge { vault = some vault; pending = none })
        ]
  ]

  -- What `prepare_password_change` makes of the rewrapped metadata.
  unfoldable pub plan_password_change : VaultMetaV1 → Result BridgeError PendingPasswordChange
  plan_password_change metadata = ok_or (meta_json.encode metadata) serialization >>= λ text.
      ok (record { metadata = metadata; metadata_json = text })

  -- `prepare_password_change`
  unfoldable pub prepare_password_change :
      Bytes → Bytes → VaultBridge → R → Result BridgeError String × VaultBridge × R
  prepare_password_change current new bridge rng = elim (ensure_mutable bridge) [
    | err e ↦ (err e, bridge, rng)
    | ok vault ↦ elim bridge.metadata [
      | none ↦ (err missing_metadata, bridge, rng)
      | some metadata ↦
          let (rewrapped, rng') =
            rewrap_vault_key platform current new metadata vault default_config rng in
          elim (map_err in_vault rewrapped >>= plan_password_change) [
            | err e ↦ (err e, bridge, rng')
            | ok pending ↦ (
              ok pending.metadata_json,
              record bridge { pending_password_change = some pending },
              rng',
            )
          ]
    ]
  ]

  -- The checks of `commit_password_change`, which yield the metadata.
  unfoldable pub check_metadata : String → VaultBridge → Result BridgeError VaultMetaV1
  check_metadata readback_json bridge =
      ok_or bridge.pending_password_change no_password_change_pending >>= λ pending.
      guard (readback_json == pending.metadata_json) readback_mismatch
      >> (ok_or (meta_json.decode readback_json) serialization >>= λ readback.
          guard (readback == pending.metadata) readback_mismatch >> ok pending.metadata)

  -- `commit_password_change`
  unfoldable pub commit_password_change :
      String → VaultBridge → Result BridgeError (Unit {0}) × VaultBridge
  commit_password_change readback_json bridge = elim (check_metadata readback_json bridge) [
    | err e ↦ (err e, bridge)
    | ok metadata ↦
        (ok tt, record bridge { metadata = some metadata; pending_password_change = none })
  ]
