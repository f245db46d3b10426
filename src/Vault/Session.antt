-- ===== src/Vault/Session.antt =====
-- crates/vault-core/src/vault.rs: the session's state, the password policy, and the container's way
-- into and out of a slot.
use package.pocket_vault.Base.{
  ℕ, ◌-◌, Bytes, length, leb, from_utf8, Result, ok, ok_or, guard, ◌>>=◌, ◌>>◌,
}
use package.pocket_vault.Error.{
  VaultError, invalid_container, invalid_master_password, serialization_failed, vault_too_large,
}
use package.pocket_vault.Model.{
  SlotId, VaultMetaV1, EncryptedVaultSlotV1, ActiveSlotV1, VaultContainerV1, validate_container,
  max_slot_json_bytes,
}
use package.pocket_vault.Platform.{Platform}
use package.pocket_vault.Crypto.{decrypt_slot_payload}

-- `UnlockedVault`
pub record UnlockedVault : Type 0 where
  pub container : VaultContainerV1
  pub dek : Bytes
  pub persisted_slot : SlotId

-- `CreatedVault`
pub record CreatedVault : Type 0 where
  pub metadata : VaultMetaV1
  pub initial_slot : EncryptedVaultSlotV1
  pub active_slot : ActiveSlotV1
  pub unlocked : UnlockedVault

abbrev pub min_master_password_chars : ℕ
min_master_password_chars = 16

-- `validate_new_master_password`
unfoldable pub validate_new_master_password : Bytes → Result VaultError (Unit {0})
validate_new_master_password master_password = do
  value ← ok_or (from_utf8 master_password) (invalid_master_password "password must be valid UTF-8")
  guard (leb min_master_password_chars (length value))
      (invalid_master_password "password must contain at least 16 characters")

module _ {R : Type 0} (platform : Platform R) where
  -- `serialize_container`
  unfoldable pub serialize_container : VaultContainerV1 → Result VaultError Bytes
  serialize_container container = do
    plaintext ← ok_or (platform.container_json.encode container) serialization_failed
    guard (leb (length plaintext) (max_slot_json_bytes - 16)) vault_too_large
    ok plaintext

  -- `decrypt_container`
  unfoldable pub decrypt_container :
      Bytes → EncryptedVaultSlotV1 → Result VaultError VaultContainerV1
  decrypt_container dek slot = do
    plaintext ← decrypt_slot_payload platform dek slot
    guard (leb (length plaintext) max_slot_json_bytes) vault_too_large
    container ←
        ok_or (platform.container_json.decode plaintext)
          (invalid_container "plaintext JSON is invalid")
    validate_container container slot.vault_id slot.generation
    ok container
