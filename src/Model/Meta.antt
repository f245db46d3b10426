-- ===== src/Model/Meta.antt =====
-- crates/vault-core/src/model.rs: `WrappedDekV1` and `VaultMetaV1`.
use package.pocket_vault.Base.{
  ℕ, ◌≡◌, ◌↔◌, Bool, true, ◌&&◌, String, length, arith, Eq, ◌==◌, ==_iff, nat_eq, string_eq, Result,
  guard, ◌>>◌, map_err,
}
use package.pocket_vault.Error.{VaultError, invalid_metadata, unsupported_format_version}
use package.pocket_vault.Model.Ids.{
  VaultId, AeadAlgorithm, EncodedBytes, vault_id_eq, aead_algorithm_eq, encoded_bytes_eq,
  validate_format,
}
use package.pocket_vault.Model.Kdf.{KdfParams, kdf_params_eq, validate_kdf}

pub record WrappedDekV1 : Type 0 where
  pub algorithm : AeadAlgorithm
  pub nonce : EncodedBytes
  pub ciphertext : EncodedBytes

pub record VaultMetaV1 : Type 0 where
  pub format : String
  pub version : ℕ
  pub vault_id : VaultId
  pub created_at : ℕ
  pub kdf : KdfParams
  pub wrapped_dek : WrappedDekV1

-- The `match` in `map_err` that renames a format error, in the three `validate` methods.
abbrev pub format_error : VaultError → VaultError → VaultError
format_error renamed unsupported_format_version = unsupported_format_version
format_error renamed _ = renamed

-- `VaultMetaV1::validate`
unfoldable pub validate_meta : VaultMetaV1 → Result VaultError (Unit {0})
validate_meta meta = do
  map_err (format_error (invalid_metadata "unexpected format name"))
      (validate_format meta.format meta.version)
  validate_kdf meta.kdf
  guard (length meta.wrapped_dek.nonce.as_slice == 24)
      (invalid_metadata "wrapped DEK nonce must be 24 bytes")
  guard (length meta.wrapped_dek.ciphertext.as_slice == 48)
      (invalid_metadata "wrapped DEK ciphertext must be 48 bytes")

abbrev pub wrapped_dek_eqb : WrappedDekV1 → WrappedDekV1 → Bool
wrapped_dek_eqb x y =
    x.algorithm == y.algorithm && x.nonce == y.nonce && x.ciphertext == y.ciphertext

pub wrapped_dek_iff : (x y : WrappedDekV1) → (wrapped_dek_eqb x y ≡ true) ↔ (x ≡ y)
wrapped_dek_iff x y = ground (
  arith,
  ==_iff x.algorithm y.algorithm,
  ==_iff x.nonce y.nonce,
  ==_iff x.ciphertext y.ciphertext,
)

instance abbrev pub wrapped_dek_eq : Eq WrappedDekV1
wrapped_dek_eq = record { beq = wrapped_dek_eqb; beq_iff = wrapped_dek_iff }

abbrev pub vault_meta_eqb : VaultMetaV1 → VaultMetaV1 → Bool
vault_meta_eqb x y =
    x.format == y.format
    && x.version == y.version
    && x.vault_id == y.vault_id
    && x.created_at == y.created_at
    && x.kdf == y.kdf
    && x.wrapped_dek == y.wrapped_dek

pub vault_meta_iff : (x y : VaultMetaV1) → (vault_meta_eqb x y ≡ true) ↔ (x ≡ y)
vault_meta_iff x y = ground (
  arith,
  ==_iff x.format y.format,
  ==_iff x.vault_id y.vault_id,
  ==_iff x.kdf y.kdf,
  ==_iff x.wrapped_dek y.wrapped_dek,
)

instance abbrev pub vault_meta_eq : Eq VaultMetaV1
vault_meta_eq = record { beq = vault_meta_eqb; beq_iff = vault_meta_iff }
