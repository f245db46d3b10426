-- ===== src/Crypto/Seal.antt =====
-- crates/vault-core/src/crypto.rs: the calls that draw a fresh nonce.
use package.pocket_vault.Base.{ℕ, Bytes, ok_or}
use package.pocket_vault.Base.Exec.{Exec, pure, lift, ◌>>=◌}
use package.pocket_vault.Error.{VaultError, random_generation_failed}
use package.pocket_vault.Model.{
  VaultId, SlotId, WrappedDekV1, EncryptedVaultSlotV1, xchacha20_poly1305, format_name,
  format_version,
}
use package.pocket_vault.Platform.{Platform}
use package.pocket_vault.Crypto.Aad.{wrapped_dek_aad, vault_slot_aad}
use package.pocket_vault.Crypto.Keys.{encrypt, nonce_bytes}

module _ {R : Type 0} (platform : Platform R) where
  -- `random_array`
  unfoldable pub random_array : ℕ → Exec R VaultError Bytes
  random_array n rng =
      let (filled, rng') = platform.fill n rng in (ok_or filled random_generation_failed, rng')

  -- `wrap_dek`
  unfoldable pub wrap_dek : Bytes → Bytes → VaultId → Exec R VaultError WrappedDekV1
  wrap_dek kek dek vault_id = do
    nonce ← random_array nonce_bytes
    ciphertext ← lift (encrypt platform kek nonce dek (wrapped_dek_aad vault_id))
    pure (record {
      algorithm = xchacha20_poly1305;
      nonce = record { as_slice = nonce };
      ciphertext = record { as_slice = ciphertext };
    })

  -- `encrypt_slot_payload`
  unfoldable pub encrypt_slot_payload :
      Bytes → VaultId → SlotId → ℕ → Bytes → Exec R VaultError EncryptedVaultSlotV1
  encrypt_slot_payload dek vault_id slot generation plaintext = do
    nonce ← random_array nonce_bytes
    ciphertext ←
        lift (encrypt platform dek nonce plaintext (vault_slot_aad vault_id slot generation))
    pure (record {
      format = format_name;
      version = format_version;
      vault_id = vault_id;
      slot = slot;
      generation = generation;
      algorithm = xchacha20_poly1305;
      nonce = record { as_slice = nonce };
      ciphertext = record { as_slice = ciphertext };
    })
