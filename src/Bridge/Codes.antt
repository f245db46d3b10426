-- ===== src/Bridge/Codes.antt =====
-- crates/vault-wasm/src/bridge.rs: the codes by which JavaScript tells errors apart.
use package.pocket_vault.Base.{String}
use package.pocket_vault.Error.{
  VaultError, invalid_master_password, wrong_password_or_corrupted_vault, entry_not_found,
  vault_too_large, unsupported_format_version, invalid_kdf_parameters, random_generation_failed,
  already_initialized, uninitialized,
}
use package.pocket_vault.Bridge.State.{
  BridgeError, in_vault, locked, save_pending, no_save_pending, pending_slot_not_verified,
  readback_mismatch, serialization, missing_metadata, no_password_change_pending,
}

-- The arms of `code` for `Self::Vault`.
abbrev pub vault_code : VaultError → String
vault_code (invalid_master_password _) = "invalid_master_password"
vault_code wrong_password_or_corrupted_vault = "cannot_open_vault"
vault_code entry_not_found = "entry_not_found"
vault_code vault_too_large = "vault_too_large"
vault_code unsupported_format_version = "unsupported_format"
vault_code (invalid_kdf_parameters _) = "invalid_kdf_parameters"
vault_code random_generation_failed = "random_unavailable"
vault_code already_initialized = "already_initialized"
vault_code uninitialized = "uninitialized"
vault_code _ = "vault_operation_failed"

-- `code`
unfoldable pub error_code : BridgeError → String
error_code (in_vault e) = vault_code e
error_code missing_metadata = "uninitialized"
error_code locked = "locked"
error_code save_pending = "save_pending"
error_code no_save_pending = "no_save_pending"
error_code pending_slot_not_verified = "pending_slot_not_verified"
error_code readback_mismatch = "storage_readback_mismatch"
error_code serialization = "serialization_failed"
error_code no_password_change_pending = "no_password_change_pending"
