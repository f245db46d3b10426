-- ===== src/Model/Spec.antt =====
-- What a well-formed value is, said without the code of crates/vault-core/src/model.rs that tests it.
use package.pocket_vault.Base.{
  ◌≡◌, ◌≢◌, ◌≤◌, String, len, count, Option, none, some, List, [], ◌∷◌, length, All,
}
use package.pocket_vault.Model.{
  VaultId, EntryId, KdfParams, VaultMetaV1, EncryptedVaultSlotV1, VaultEntry, VaultContainerV1,
}

pub record KdfWithinLimits (kdf : KdfParams) : Type 0 where
  pub memory_lo : 19456 ≤ kdf.memory_kib
  pub memory_hi : kdf.memory_kib ≤ 262144
  pub iterations_lo : 1 ≤ kdf.iterations
  pub iterations_hi : kdf.iterations ≤ 10
  pub parallelism_lo : 1 ≤ kdf.parallelism
  pub parallelism_hi : kdf.parallelism ≤ 4
  pub salt_lo : 16 ≤ length kdf.salt.as_slice
  pub salt_hi : length kdf.salt.as_slice ≤ 64
  pub output : kdf.output_bytes ≡ 32

pub record MetaIsSound (meta : VaultMetaV1) : Type 0 where
  pub format : meta.format ≡ "pocket-vault"
  pub version : meta.version ≡ 1
  pub kdf : KdfWithinLimits meta.kdf
  pub nonce : length meta.wrapped_dek.nonce.as_slice ≡ 24
  pub ciphertext : length meta.wrapped_dek.ciphertext.as_slice ≡ 48

pub record SlotIsSound (slot : EncryptedVaultSlotV1) (vault_id : VaultId) : Type 0 where
  pub format : slot.format ≡ "pocket-vault"
  pub version : slot.version ≡ 1
  pub owner : slot.vault_id ≡ vault_id
  pub nonce : length slot.nonce.as_slice ≡ 24
  pub ciphertext_lo : 16 ≤ length slot.ciphertext.as_slice
  pub ciphertext_hi : length slot.ciphertext.as_slice ≤ 5242880

abbrev pub DescriptionFits : Option String → Type 0
DescriptionFits none = Unit {0}
DescriptionFits (some value) = count value ≤ 2000

pub record FieldsFit (title secret : String) (text : Option String) : Type 0 where
  pub title_lo : 1 ≤ count title
  pub title_hi : count title ≤ 200
  pub secret_lo : 1 ≤ len secret
  pub secret_hi : len secret ≤ 4096
  pub description : DescriptionFits text

-- An entry that may stand in the container.
pub record MemberIsSound (container : VaultContainerV1) (entry : VaultEntry) : Type 0 where
  pub fields : FieldsFit entry.title entry.secret entry.description
  pub ordered : entry.created_at ≤ entry.updated_at
  pub after : container.created_at ≤ entry.created_at
  pub before : entry.updated_at ≤ container.updated_at

abbrev pub Absent : EntryId → List VaultEntry → Type 0
Absent id [] = Unit
Absent id (entry ∷ entries) = (entry.id ≢ id) × Absent id entries

abbrev pub DistinctIds : List VaultEntry → Type 0
DistinctIds [] = Unit
DistinctIds (entry ∷ entries) = Absent entry.id entries × DistinctIds entries

-- The invariant of the decrypted container, apart from its owner and its generation.
pub record ContainerIsSound (container : VaultContainerV1) : Type 0 where
  pub format : container.format ≡ "pocket-vault"
  pub version : container.version ≡ 1
  pub ordered : container.created_at ≤ container.updated_at
  pub room : length container.entries ≤ 10000
  pub members : All (MemberIsSound container) container.entries
  pub distinct : DistinctIds container.entries
