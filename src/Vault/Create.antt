-- ===== src/Vault/Create.antt =====
-- crates/vault-core/src/vault.rs: creating a vault, and changing its password.
use package.pocket_vault.Base.{ℕ, Bytes}
use package.pocket_vault.Base.Exec.{Exec, pure, lift, ◌>>=◌, ◌>>◌}
use package.pocket_vault.Error.{VaultError}
use package.pocket_vault.Model.{
  VaultId, KdfConfig, from_config, VaultMetaV1, slot_a, format_name, format_version,
}
use package.pocket_vault.Platform.{Platform}
use package.pocket_vault.Crypto.{wrap_dek, encrypt_slot_payload, random_array, key_bytes}
use package.pocket_vault.Vault.Session.{
  UnlockedVault, CreatedVault, validate_new_master_password, serialize_container,
}
use package.pocket_vault.Vault.Open.{
  id_bytes, salt_bytes, empty_container, authorize_rewrap, fresh_kek,
}

module _ {R : Type 0} (platform : Platform R) where
  -- `create_vault`
  unfoldable pub create_vault : Bytes → KdfConfig → ℕ → Exec R VaultError CreatedVault
  create_vault master_password config now = do
    lift (validate_new_master_password master_password)
    id ← random_array platform id_bytes
    let vault_id : VaultId = record { bytes = id }
    salt ← random_array platform salt_bytes
    let kdf = from_config salt config
    kek ← lift (fresh_kek platform master_password vault_id kdf)
    dek ← random_array platform key_bytes
    wrapped_dek ← wrap_dek platform kek dek vault_id
    let container = empty_container vault_id now
    plaintext ← lift (serialize_container platform container)
    initial_slot ← encrypt_slot_payload platform dek vault_id slot_a container.generation plaintext
    pure (record {
      metadata = record {
        format = format_name;
        version = format_version;
        vault_id = vault_id;
        created_at = now;
        kdf = kdf;
        wrapped_dek = wrapped_dek;
      };
      initial_slot = initial_slot;
      active_slot = record { version = format_version; slot = slot_a; generation = 0 };
      unlocked = record { container = container; dek = dek; persisted_slot = slot_a };
    })

  -- `rewrap_vault_key`
  unfoldable pub rewrap_vault_key :
      Bytes → Bytes → VaultMetaV1 → UnlockedVault → KdfConfig → Exec R VaultError VaultMetaV1
  rewrap_vault_key current_master_password new_master_password metadata vault config = do
    lift (authorize_rewrap platform current_master_password new_master_password metadata vault)
    salt ← random_array platform salt_bytes
    let kdf = from_config salt config
    new_kek ← lift (fresh_kek platform new_master_password metadata.vault_id kdf)
    wrapped_dek ← wrap_dek platform new_kek vault.dek metadata.vault_id
    pure (record metadata { kdf = kdf; wrapped_dek = wrapped_dek })
