-- ===== src/Model/Slot.antt =====
-- crates/vault-core/src/model.rs: `EncryptedVaultSlotV1` and `ActiveSlotV1`.
use package.pocket_vault.Base.{
  ℕ, ◌≡◌, ◌↔◌, Bool, true, ◌&&◌, String, length, arith, Eq, ◌==◌, ==_iff, nat_eq, string_eq,
  in_range, Result, guard, ◌>>◌, map_err,
}
use package.pocket_vault.Error.{VaultError, invalid_slot, unsupported_format_version}
use package.pocket_vault.Model.Ids.{
  VaultId, AeadAlgorithm, EncodedBytes, SlotId, vault_id_eq, aead_algorithm_eq, encoded_bytes_eq,
  slot_id_eq, validate_format, device_storage_limit_bytes, format_version,
}
use package.pocket_vault.Model.Meta.{format_error}

pub record EncryptedVaultSlotV1 : Type 0 where
  pub format : String
  pub version : ℕ
  pub vault_id : VaultId
  pub slot : SlotId
  pub generation : ℕ
  pub algorithm : AeadAlgorithm
  pub nonce : EncodedBytes
  pub ciphertext : EncodedBytes

-- `EncryptedVaultSlotV1::validate`
unfoldable pub validate_slot : EncryptedVaultSlotV1 → VaultId → Result VaultError (Unit {0})
validate_slot slot expected_vault_id = do
  map_err (format_error (invalid_slot "unexpected format name"))
      (validate_format slot.format slot.version)
  guard (slot.vault_id == expected_vault_id) (invalid_slot "vaultId does not match metadata")
  guard (length slot.nonce.as_slice == 24) (invalid_slot "nonce must be 24 bytes")
  guard (in_range 16 device_storage_limit_bytes (length slot.ciphertext.as_slice))
      (invalid_slot "ciphertext length is out of bounds")

pub record ActiveSlotV1 : Type 0 where
  pub version : ℕ
  pub slot : SlotId
  pub generation : ℕ

-- `ActiveSlotV1::validate`
unfoldable pub validate_pointer : ActiveSlotV1 → Result VaultError (Unit {0})
validate_pointer pointer = guard (pointer.version == format_version) unsupported_format_version

abbrev pub encrypted_slot_eqb : EncryptedVaultSlotV1 → EncryptedVaultSlotV1 → Bool
encrypted_slot_eqb x y =
    x.format == y.format
    && x.version == y.version
    && x.vault_id == y.vault_id
    && x.slot == y.slot
    && x.generation == y.generation
    && x.algorithm == y.algorithm
    && x.nonce == y.nonce
    && x.ciphertext == y.ciphertext

pub encrypted_slot_iff : (x y : EncryptedVaultSlotV1) → (encrypted_slot_eqb x y ≡ true) ↔ (x ≡ y)
encrypted_slot_iff x y = ground (
  arith,
  ==_iff x.format y.format,
  ==_iff x.vault_id y.vault_id,
  ==_iff x.slot y.slot,
  ==_iff x.algorithm y.algorithm,
  ==_iff x.nonce y.nonce,
  ==_iff x.ciphertext y.ciphertext,
)

instance abbrev pub encrypted_slot_eq : Eq EncryptedVaultSlotV1
encrypted_slot_eq = record { beq = encrypted_slot_eqb; beq_iff = encrypted_slot_iff }

abbrev pub active_slot_eqb : ActiveSlotV1 → ActiveSlotV1 → Bool
active_slot_eqb x y = x.version == y.version && x.slot == y.slot && x.generation == y.generation

pub active_slot_iff : (x y : ActiveSlotV1) → (active_slot_eqb x y ≡ true) ↔ (x ≡ y)
active_slot_iff x y = ground (arith, ==_iff x.slot y.slot)

instance abbrev pub active_slot_eq : Eq ActiveSlotV1
active_slot_eq = record { beq = active_slot_eqb; beq_iff = active_slot_iff }
