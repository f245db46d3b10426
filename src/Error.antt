-- ===== src/Error.antt =====
-- The error types of crates/vault-core/src/error.rs. A constructor's text is its `&'static str`.
use package.pocket_vault.Base.{String}

-- `StorageError`
pub data StorageError : Type 0 where
  read_failed write_failed remove_failed : StorageError

-- `VaultError`
pub data VaultError : Type 0 where
  invalid_metadata : String → VaultError
  invalid_slot : String → VaultError
  invalid_container : String → VaultError
  unsupported_format_version : VaultError
  invalid_kdf_parameters : String → VaultError
  invalid_master_password : String → VaultError
  key_derivation_failed : VaultError
  encryption_failed : VaultError
  wrong_password_or_corrupted_vault : VaultError
  random_generation_failed : VaultError
  serialization_failed : VaultError
  entry_not_found : VaultError
  duplicate_entry : VaultError
  vault_too_large : VaultError
  generation_overflow : VaultError
  slot_verification_failed : VaultError
  uninitialized : VaultError
  already_initialized : VaultError
  storage : StorageError → VaultError
