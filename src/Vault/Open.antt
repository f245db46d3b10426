-- ===== src/Vault/Open.antt =====
-- crates/vault-core/src/vault.rs: unlocking a vault, and the parts of creating one and
-- of changing its password that need no randomness.
use package.pocket_vault.Base.{
  ℕ, Bytes, [], ◌==◌, list_eq, nat_eq, ◌&&◌, Result, ok, guard, ◌>>=◌, ◌>>◌,
}
use package.pocket_vault.Error.{VaultError, invalid_metadata, wrong_password_or_corrupted_vault}
use package.pocket_vault.Model.{
  VaultId, vault_id_eq, KdfParams, validate_kdf, VaultMetaV1, validate_meta, EncryptedVaultSlotV1,
  validate_slot, VaultContainerV1, format_name, format_version,
}
use package.pocket_vault.Platform.{Platform}
use package.pocket_vault.Crypto.{derive_kek, unwrap_dek}
use package.pocket_vault.Vault.Session.{
  UnlockedVault, validate_new_master_password, decrypt_container,
}

abbrev pub id_bytes : ℕ
id_bytes = 16

abbrev pub salt_bytes : ℕ
salt_bytes = 16

-- The container that `create_vault` starts from.
abbrev pub empty_container : VaultId → ℕ → VaultContainerV1
empty_container vault_id now = record {
  format = format_name;
  version = format_version;
  vault_id = vault_id;
  generation = 0;
  created_at = now;
  updated_at = now;
  entries = [];
}

module _ {R : Type 0} (platform : Platform R) where
  -- `unlock_vault`
  unfoldable pub unlock_vault :
      Bytes → VaultMetaV1 → EncryptedVaultSlotV1 → Result VaultError UnlockedVault
  unlock_vault master_password metadata slot = do
    validate_meta metadata
    validate_slot slot metadata.vault_id
    kek ← derive_kek platform master_password metadata.vault_id metadata.kdf
    dek ← unwrap_dek platform kek metadata.wrapped_dek metadata.vault_id
    container ← decrypt_container platform dek slot
    guard (container.created_at == metadata.created_at)
        (invalid_metadata "createdAt does not match encrypted vault")
    ok (record { container = container; dek = dek; persisted_slot = slot.slot })

  -- The checks of `rewrap_vault_key` that come before it draws a salt.
  unfoldable pub authorize_rewrap :
      Bytes → Bytes → VaultMetaV1 → UnlockedVault → Result VaultError (Unit {0})
  authorize_rewrap current_master_password new_master_password metadata vault = do
    validate_meta metadata
    guard
        (metadata.vault_id == vault.container.vault_id
          && metadata.created_at == vault.container.created_at)
        (invalid_metadata "metadata does not match the unlocked vault")
    current_kek ← derive_kek platform current_master_password metadata.vault_id metadata.kdf
    verified_dek ← unwrap_dek platform current_kek metadata.wrapped_dek metadata.vault_id
    guard (verified_dek == vault.dek) wrong_password_or_corrupted_vault
    validate_new_master_password new_master_password

  -- `kdf.validate()?` and `derive_kek` on fresh parameters, as in `create_vault` and
  -- `rewrap_vault_key`.
  unfoldable pub fresh_kek : Bytes → VaultId → KdfParams → Result VaultError Bytes
  fresh_kek master_password vault_id kdf =
      validate_kdf kdf >> derive_kek platform master_password vault_id kdf
