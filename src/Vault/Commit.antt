-- ===== src/Vault/Commit.antt =====
-- crates/vault-core/src/vault.rs: encrypting the session for a slot, verifying the slot that was read
-- back, and committing it.
use package.pocket_vault.Base.{
  ℕ, ◌&&◌, ◌==◌, nat_eq, checked_add, Result, ok, err, ok_or, guard, ◌>>=◌, ◌>>◌,
}
use package.pocket_vault.Base.Exec as X
use package.pocket_vault.Base.Exec.{Exec, lift}
use package.pocket_vault.Error.{VaultError, generation_overflow, slot_verification_failed}
use package.pocket_vault.Model.{
  SlotId, slot_id_eq, other, EncryptedVaultSlotV1, validate_slot, VaultContainerV1,
  vault_container_eq,
}
use package.pocket_vault.Platform.{Platform}
use package.pocket_vault.Crypto.{encrypt_slot_payload}
use package.pocket_vault.Vault.Session.{UnlockedVault, serialize_container, decrypt_container}

-- `self.container.clone()` with another generation.
abbrev pub at_generation : VaultContainerV1 → ℕ → VaultContainerV1
at_generation container generation = record container { generation = generation }

-- `self.container.generation.checked_add(1).ok_or(GenerationOverflow)`
abbrev pub next_generation : UnlockedVault → Result VaultError ℕ
next_generation vault = ok_or (checked_add vault.container.generation 1) generation_overflow

module _ {R : Type 0} (platform : Platform R) where
  -- `encrypt_for_slot_at_generation`
  unfoldable pub encrypt_for_slot_at_generation :
      UnlockedVault → SlotId → ℕ → Exec R VaultError EncryptedVaultSlotV1
  encrypt_for_slot_at_generation vault slot generation =
      let candidate = at_generation vault.container generation in
      X.◌>>=◌ (lift (serialize_container platform candidate)) (λ plaintext.
        encrypt_slot_payload platform vault.dek candidate.vault_id slot generation plaintext)

  -- `encrypt_for_slot`
  unfoldable pub encrypt_for_slot : UnlockedVault → SlotId → Exec R VaultError EncryptedVaultSlotV1
  encrypt_for_slot vault slot =
      X.◌>>=◌ (lift (next_generation vault))
        (λ generation. encrypt_for_slot_at_generation vault slot generation)

  -- `decrypt_candidate`
  unfoldable pub decrypt_candidate :
      UnlockedVault → EncryptedVaultSlotV1 → Result VaultError VaultContainerV1
  decrypt_candidate vault slot =
      validate_slot slot vault.container.vault_id >> decrypt_container platform vault.dek slot

  -- `verify_next_slot`
  unfoldable pub verify_next_slot :
      UnlockedVault → EncryptedVaultSlotV1 → Result VaultError (Unit {0})
  verify_next_slot vault slot = do
    expected_generation ← next_generation vault
    guard (slot.slot == other vault.persisted_slot && slot.generation == expected_generation)
        slot_verification_failed
    verified ← decrypt_candidate vault slot
    guard (verified == at_generation vault.container expected_generation) slot_verification_failed

  -- `commit_verified_slot`
  unfoldable pub commit_verified_slot :
      EncryptedVaultSlotV1 → Exec UnlockedVault VaultError (Unit {0})
  commit_verified_slot slot vault = elim (verify_next_slot vault slot) [
    | err e ↦ (err e, vault)
    | ok _ ↦ (
      ok tt,
      record vault {
        container = at_generation vault.container slot.generation;
        persisted_slot = slot.slot;
      },
    )
  ]
