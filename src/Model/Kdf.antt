-- ===== src/Model/Kdf.antt =====
-- crates/vault-core/src/model.rs: `KdfParams` and `KdfConfig`.
use package.pocket_vault.Base.{
  ℕ, ◌≡◌, ◌↔◌, Bool, true, ◌&&◌, Bytes, length, arith, Eq, ◌==◌, ==_iff, nat_eq, in_range, Result,
  guard, ◌>>◌,
}
use package.pocket_vault.Error.{VaultError, invalid_kdf_parameters}
use package.pocket_vault.Model.Ids.{
  KdfAlgorithm, argon2id, EncodedBytes, kdf_algorithm_eq, encoded_bytes_eq,
}

pub record KdfParams : Type 0 where
  pub algorithm : KdfAlgorithm
  pub salt : EncodedBytes
  pub memory_kib : ℕ
  pub iterations : ℕ
  pub parallelism : ℕ
  pub output_bytes : ℕ

pub record KdfConfig : Type 0 where
  pub memory_kib : ℕ
  pub iterations : ℕ
  pub parallelism : ℕ

-- `KdfConfig::default`
abbrev pub default_config : KdfConfig
default_config = record { memory_kib = 19456; iterations = 2; parallelism = 1 }

abbrev pub kdf_output_bytes : ℕ
kdf_output_bytes = 32

-- `KdfParams::from_config`
unfoldable pub from_config : Bytes → KdfConfig → KdfParams
from_config salt config = record {
  algorithm = argon2id;
  salt = record { as_slice = salt };
  memory_kib = config.memory_kib;
  iterations = config.iterations;
  parallelism = config.parallelism;
  output_bytes = kdf_output_bytes;
}

-- `KdfParams::validate`
unfoldable pub validate_kdf : KdfParams → Result VaultError (Unit {0})
validate_kdf kdf = do
  guard (in_range 19456 262144 kdf.memory_kib) (invalid_kdf_parameters "memoryKiB is out of bounds")
  guard (in_range 1 10 kdf.iterations) (invalid_kdf_parameters "iterations is out of bounds")
  guard (in_range 1 4 kdf.parallelism) (invalid_kdf_parameters "parallelism is out of bounds")
  guard (in_range 16 64 (length kdf.salt.as_slice))
      (invalid_kdf_parameters "salt length is out of bounds")
  guard (kdf.output_bytes == kdf_output_bytes)
      (invalid_kdf_parameters "output length must be 32 bytes")

abbrev pub kdf_params_eqb : KdfParams → KdfParams → Bool
kdf_params_eqb x y =
    x.algorithm == y.algorithm
    && x.salt == y.salt
    && x.memory_kib == y.memory_kib
    && x.iterations == y.iterations
    && x.parallelism == y.parallelism
    && x.output_bytes == y.output_bytes

pub kdf_params_iff : (x y : KdfParams) → (kdf_params_eqb x y ≡ true) ↔ (x ≡ y)
kdf_params_iff x y = ground (arith, ==_iff x.algorithm y.algorithm, ==_iff x.salt y.salt)

instance abbrev pub kdf_params_eq : Eq KdfParams
kdf_params_eq = record { beq = kdf_params_eqb; beq_iff = kdf_params_iff }
