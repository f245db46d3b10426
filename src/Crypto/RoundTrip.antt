-- ===== src/Crypto/RoundTrip.antt =====
-- crates/vault-core/src/crypto.rs: sealing and opening.
use package.pocket_vault.Base.{ℕ, ◌+◌, ◌≡◌, Bytes, length, arith, Option-cases, inl, inr, ok}
use package.pocket_vault.Model.{VaultId, SlotId, WrappedDekV1, EncryptedVaultSlotV1}
use package.pocket_vault.Platform.{Platform, PlatformLaws}
use package.pocket_vault.Crypto.Aad.{wrapped_dek_aad, vault_slot_aad}
use package.pocket_vault.Crypto.Keys.{encrypt, decrypt, unwrap_dek, decrypt_slot_payload}
use package.pocket_vault.Crypto.Seal.{random_array, wrap_dek, encrypt_slot_payload}

-- The envelope that `encrypt_slot_payload` makes.
pub record EnvelopeOf (slot : EncryptedVaultSlotV1) (owner : VaultId) (place : SlotId) (at : ℕ)
    (plaintext : Bytes) : Type 0 where
  pub format_lem : slot.format ≡ "pocket-vault"
  pub version_lem : slot.version ≡ 1
  pub vault_id_lem : slot.vault_id ≡ owner
  pub slot_lem : slot.slot ≡ place
  pub generation_lem : slot.generation ≡ at
  pub length-nonce : length slot.nonce.as_slice ≡ 24
  pub length-ciphertext : length slot.ciphertext.as_slice ≡ length plaintext + 16

module _ {R : Type 0} (platform : Platform R) (laws : PlatformLaws platform) where
  -- A payload that was encrypted for a slot decrypts, under the same key, to itself; the envelope
  -- names the vault, slot and generation, and has the sizes that are later checked.
  pub encrypt-decrypt_slot_payload :
      (dek : Bytes) (owner : VaultId) (place : SlotId) (at : ℕ) (plaintext : Bytes) (rng rng' : R)
      (slot : EncryptedVaultSlotV1)
      → encrypt_slot_payload platform dek owner place at plaintext rng ≡ (ok slot, rng')
      → (decrypt_slot_payload platform dek slot ≡ ok plaintext)
        × EnvelopeOf slot owner place at plaintext
  unfolding encrypt_slot_payload random_array encrypt decrypt_slot_payload decrypt
  encrypt-decrypt_slot_payload dek owner place at plaintext rng rng' slot h =
      let aad = vault_slot_aad owner place at in
      elim (Option-cases (platform.fill 24 rng).0) [
        | inl failed ↦ absurd (ground arith)
        | inr (nonce, drawn) ↦ elim (Option-cases (platform.seal dek nonce plaintext aad)) [
          | inl failed ↦ absurd (ground arith)
          | inr (ciphertext, sealed) ↦ ground (
            arith,
            laws.length-fill 24 rng nonce drawn,
            laws.unseal-seal dek nonce plaintext aad ciphertext sealed,
            laws.length-seal dek nonce plaintext aad ciphertext sealed,
          )
        ]
      ]

  -- A key of 32 bytes that was wrapped is unwrapped, under the same wrapping key and for the same
  -- vault, to itself; the stored sizes are those that metadata must have.
  pub wrap-unwrap_dek :
      (kek dek : Bytes) (owner : VaultId) (rng rng' : R) (wrapped : WrappedDekV1)
      → length dek ≡ 32
      → wrap_dek platform kek dek owner rng ≡ (ok wrapped, rng')
      → (unwrap_dek platform kek wrapped owner ≡ ok dek)
        × (length wrapped.nonce.as_slice ≡ 24)
        × (length wrapped.ciphertext.as_slice ≡ 48)
  unfolding wrap_dek random_array encrypt unwrap_dek decrypt
  wrap-unwrap_dek kek dek owner rng rng' wrapped size h =
      let aad = wrapped_dek_aad owner in
      elim (Option-cases (platform.fill 24 rng).0) [
        | inl failed ↦ absurd (ground arith)
        | inr (nonce, drawn) ↦ elim (Option-cases (platform.seal kek nonce dek aad)) [
          | inl failed ↦ absurd (ground arith)
          | inr (ciphertext, sealed) ↦ ground (
            arith,
            laws.length-fill 24 rng nonce drawn,
            laws.unseal-seal kek nonce dek aad ciphertext sealed,
            laws.length-seal kek nonce dek aad ciphertext sealed,
          )
        ]
      ]
