-- ===== src/Crypto/Keys.antt =====
-- crates/vault-core/src/crypto.rs: key derivation and the calls that need no randomness.
use package.pocket_vault.Base.{
  ℕ, Bytes, length, ◌==◌, nat_eq, Result, ok, ok_or, guard, ◌>>=◌, ◌>>◌,
}
use package.pocket_vault.Error.{
  VaultError, invalid_metadata, invalid_slot, invalid_kdf_parameters, key_derivation_failed,
  encryption_failed, wrong_password_or_corrupted_vault,
}
use package.pocket_vault.Model.{
  VaultId, KdfParams, validate_kdf, WrappedDekV1, EncryptedVaultSlotV1,
}
use package.pocket_vault.Platform.{Platform}
use package.pocket_vault.Crypto.Aad.{kek_info, wrapped_dek_aad, vault_slot_aad}

abbrev pub key_bytes : ℕ
key_bytes = 32

abbrev pub nonce_bytes : ℕ
nonce_bytes = 24

module _ {R : Type 0} (platform : Platform R) where
  open platform use {accepts_params, hash_password, hkdf_expand, accepts_key, seal, unseal}

  -- `derive_kek`
  unfoldable pub derive_kek : Bytes → VaultId → KdfParams → Result VaultError Bytes
  derive_kek master_password vault_id kdf = do
    validate_kdf kdf
    guard (accepts_params kdf.memory_kib kdf.iterations kdf.parallelism key_bytes)
        (invalid_kdf_parameters "parameters were rejected by Argon2")
    password_key ←
        ok_or
          (hash_password kdf.memory_kib kdf.iterations kdf.parallelism key_bytes master_password
            kdf.salt.as_slice)
          key_derivation_failed
    ok_or (hkdf_expand vault_id.bytes password_key kek_info key_bytes) key_derivation_failed

  -- `encrypt`
  unfoldable pub encrypt : Bytes → Bytes → Bytes → Bytes → Result VaultError Bytes
  encrypt key nonce plaintext aad = do
    guard (accepts_key key) encryption_failed
    ok_or (seal key nonce plaintext aad) encryption_failed

  -- `decrypt`
  unfoldable pub decrypt : Bytes → Bytes → Bytes → Bytes → Result VaultError Bytes
  decrypt key nonce ciphertext aad = do
    guard (accepts_key key) wrong_password_or_corrupted_vault
    ok_or (unseal key nonce ciphertext aad) wrong_password_or_corrupted_vault

  -- `unwrap_dek`
  unfoldable pub unwrap_dek : Bytes → WrappedDekV1 → VaultId → Result VaultError Bytes
  unwrap_dek kek wrapped vault_id = do
    let nonce = wrapped.nonce.as_slice
    guard (length nonce == nonce_bytes) (invalid_metadata "wrapped DEK nonce must be 24 bytes")
    plaintext ← decrypt kek nonce wrapped.ciphertext.as_slice (wrapped_dek_aad vault_id)
    guard (length plaintext == key_bytes) wrong_password_or_corrupted_vault
    ok plaintext

  -- `decrypt_slot_payload`
  unfoldable pub decrypt_slot_payload : Bytes → EncryptedVaultSlotV1 → Result VaultError Bytes
  decrypt_slot_payload dek slot = do
    let nonce = slot.nonce.as_slice
    guard (length nonce == nonce_bytes) (invalid_slot "nonce must be 24 bytes")
    decrypt dek nonce slot.ciphertext.as_slice
        (vault_slot_aad slot.vault_id slot.slot slot.generation)
