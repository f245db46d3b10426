-- ===== src/Model/Ids.antt =====
-- crates/vault-core/src/model.rs: the limits, the identifiers, encoded bytes and the small enums.
-- A `[u8; N]` is a list of bytes; that it has N of them is said where a theorem needs it.
use package.pocket_vault.Base.{
  ℕ, ◌≡◌, ◌↔◌, Bool, true, false, String, Bytes, arith, Eq, ◌==◌, ==_iff, list_eq, nat_eq,
  string_eq, Result, guard, ◌>>◌, refl,
}
use package.pocket_vault.Error.{VaultError, invalid_container, unsupported_format_version}

abbrev pub format_name : String
format_name = "pocket-vault"

abbrev pub format_version : ℕ
format_version = 1

abbrev pub device_storage_limit_bytes : ℕ
device_storage_limit_bytes = 5242880

abbrev pub max_metadata_json_bytes : ℕ
max_metadata_json_bytes = 16384

abbrev pub max_slot_json_bytes : ℕ
max_slot_json_bytes = device_storage_limit_bytes

abbrev pub max_entries : ℕ
max_entries = 10000

abbrev pub max_title_chars : ℕ
max_title_chars = 200

abbrev pub max_secret_bytes : ℕ
max_secret_bytes = 4096

abbrev pub max_description_chars : ℕ
max_description_chars = 2000

pub record VaultId : Type 0 where
  pub bytes : Bytes

pub record EntryId : Type 0 where
  pub bytes : Bytes

-- `EncodedBytes`, with its `as_slice`; `len` is the length of the list.
pub record EncodedBytes : Type 0 where
  pub as_slice : Bytes

pub data KdfAlgorithm : Type 0 where
  argon2id : KdfAlgorithm

pub data AeadAlgorithm : Type 0 where
  xchacha20_poly1305 : AeadAlgorithm

pub data SlotId : Type 0 where
  slot_a slot_b : SlotId

-- `SlotId::other`
unfoldable pub other : SlotId → SlotId
other slot_a = slot_b
other slot_b = slot_a

-- `SlotId::aad_byte`
unfoldable pub aad_byte : SlotId → ℕ
aad_byte slot_a = b'a'
aad_byte slot_b = b'b'

-- `validate_format`
unfoldable pub validate_format : String → ℕ → Result VaultError (Unit {0})
validate_format format version = do
  guard (format == format_name) (invalid_container "unexpected format name")
  guard (version == format_version) unsupported_format_version

pub vault_id_iff : (x y : VaultId) → ((x.bytes == y.bytes) ≡ true) ↔ (x ≡ y)
vault_id_iff x y = ground (arith, ==_iff x.bytes y.bytes)

pub entry_id_iff : (x y : EntryId) → ((x.bytes == y.bytes) ≡ true) ↔ (x ≡ y)
entry_id_iff x y = ground (arith, ==_iff x.bytes y.bytes)

pub encoded_bytes_iff : (x y : EncodedBytes) → ((x.as_slice == y.as_slice) ≡ true) ↔ (x ≡ y)
encoded_bytes_iff x y = ground (arith, ==_iff x.as_slice y.as_slice)

abbrev pub slot_id_eqb : SlotId → SlotId → Bool
slot_id_eqb slot_a slot_a = true
slot_id_eqb slot_b slot_b = true
slot_id_eqb _ _ = false

pub slot_id_iff : (x y : SlotId) → (slot_id_eqb x y ≡ true) ↔ (x ≡ y)
slot_id_iff x y = ground arith

pub kdf_algorithm_iff : (x y : KdfAlgorithm) → (true ≡ true) ↔ (x ≡ y)
kdf_algorithm_iff argon2id argon2id = (λ h. refl, λ h. refl)

pub aead_algorithm_iff : (x y : AeadAlgorithm) → (true ≡ true) ↔ (x ≡ y)
aead_algorithm_iff xchacha20_poly1305 xchacha20_poly1305 = (λ h. refl, λ h. refl)

instance abbrev pub vault_id_eq : Eq VaultId
vault_id_eq = record { beq = λ x y. x.bytes == y.bytes; beq_iff = vault_id_iff }

instance abbrev pub entry_id_eq : Eq EntryId
entry_id_eq = record { beq = λ x y. x.bytes == y.bytes; beq_iff = entry_id_iff }

instance abbrev pub encoded_bytes_eq : Eq EncodedBytes
encoded_bytes_eq = record { beq = λ x y. x.as_slice == y.as_slice; beq_iff = encoded_bytes_iff }

instance abbrev pub slot_id_eq : Eq SlotId
slot_id_eq = record { beq = slot_id_eqb; beq_iff = slot_id_iff }

instance abbrev pub kdf_algorithm_eq : Eq KdfAlgorithm
kdf_algorithm_eq = record { beq = λ x y. true; beq_iff = kdf_algorithm_iff }

instance abbrev pub aead_algorithm_eq : Eq AeadAlgorithm
aead_algorithm_eq = record { beq = λ x y. true; beq_iff = aead_algorithm_iff }
