-- ===== src/Serde/Stored.antt =====
-- crates/vault-core/src/model.rs: the metadata, the slots and the pointer in JSON.
use package.pocket_vault.Base.{ℕ, Bool, String, List, [], ◌∷◌, Option, some, ltb}
use package.pocket_vault.Model.{
  KdfParams, WrappedDekV1, VaultMetaV1, EncryptedVaultSlotV1, ActiveSlotV1,
}
use package.pocket_vault.Encoding.{Base64}
use package.pocket_vault.Serde.Fields.{
  Value, number, text, object, Members, no_members, member, Serde, required, ◌>>=◌,
}
use package.pocket_vault.Serde.Keys.{
  write_vault_id, read_vault_id, write_bytes, read_bytes, write_kdf_algorithm, read_kdf_algorithm,
  write_aead_algorithm, read_aead_algorithm, write_slot_id, read_slot_id,
}

abbrev pub is_u32 : ℕ → Bool
is_u32 n = ltb n 4294967296

abbrev pub is_u64 : ℕ → Bool
is_u64 n = ltb n 18446744073709551616

abbrev pub kdf_fields : List String
kdf_fields = "algorithm" ∷ "salt" ∷ "memoryKiB" ∷ "iterations" ∷ "parallelism" ∷ "outputBytes" ∷ []

abbrev pub wrapped_dek_fields : List String
wrapped_dek_fields = "algorithm" ∷ "nonce" ∷ "ciphertext" ∷ []

abbrev pub meta_fields : List String
meta_fields = "format" ∷ "version" ∷ "vaultId" ∷ "createdAt" ∷ "kdf" ∷ "wrappedDek" ∷ []

abbrev pub slot_fields : List String
slot_fields =
    "format" ∷ "version" ∷ "vaultId" ∷ "slot" ∷ "generation" ∷ "algorithm" ∷ "nonce" ∷ "ciphertext"
    ∷ []

abbrev pub pointer_fields : List String
pointer_fields = "version" ∷ "slot" ∷ "generation" ∷ []

-- What is written of `ActiveSlotV1`, and of each other type.
abbrev pub pointer_members : ActiveSlotV1 → Members
pointer_members x =
    member "version" (number x.version)
      (member "slot" (write_slot_id x.slot) (member "generation" (number x.generation) no_members))

unfoldable pub write_pointer : ActiveSlotV1 → Value
write_pointer x = object (pointer_members x)

module _ (base64 : Base64) where
  -- `KdfParams`
  abbrev pub kdf_members : KdfParams → Members
  kdf_members x = member "algorithm" (write_kdf_algorithm x.algorithm) (
      member "salt" (write_bytes base64 x.salt) (
        member "memoryKiB" (number x.memory_kib) (
          member "iterations" (number x.iterations) (
            member "parallelism" (number x.parallelism)
              (member "outputBytes" (number x.output_bytes) no_members)))))

  unfoldable pub write_kdf : KdfParams → Value
  write_kdf x = object (kdf_members x)

  -- `WrappedDekV1`
  abbrev pub wrapped_dek_members : WrappedDekV1 → Members
  wrapped_dek_members x = member "algorithm" (write_aead_algorithm x.algorithm) (
      member "nonce" (write_bytes base64 x.nonce)
        (member "ciphertext" (write_bytes base64 x.ciphertext) no_members))

  unfoldable pub write_wrapped_dek : WrappedDekV1 → Value
  write_wrapped_dek x = object (wrapped_dek_members x)

  -- `VaultMetaV1`
  abbrev pub meta_members : VaultMetaV1 → Members
  meta_members x = member "format" (text x.format) (
      member "version" (number x.version) (
        member "vaultId" (write_vault_id base64 x.vault_id) (
          member "createdAt" (number x.created_at) (
            member "kdf" (write_kdf x.kdf)
              (member "wrappedDek" (write_wrapped_dek x.wrapped_dek) no_members)))))

  unfoldable pub write_meta : VaultMetaV1 → Value
  write_meta x = object (meta_members x)

  -- `EncryptedVaultSlotV1`
  abbrev pub slot_members : EncryptedVaultSlotV1 → Members
  slot_members x = member "format" (text x.format) (
      member "version" (number x.version) (
        member "vaultId" (write_vault_id base64 x.vault_id) (
          member "slot" (write_slot_id x.slot) (
            member "generation" (number x.generation) (
              member "algorithm" (write_aead_algorithm x.algorithm) (
                member "nonce" (write_bytes base64 x.nonce)
                  (member "ciphertext" (write_bytes base64 x.ciphertext) no_members)))))))

  unfoldable pub write_slot : EncryptedVaultSlotV1 → Value
  write_slot x = object (slot_members x)

-- What is read at each type.
module _ (serde : Serde) (base64 : Base64) where
  -- `KdfParams`
  unfoldable pub read_kdf : Value → Option KdfParams
  read_kdf value = do
    f ← serde.fields kdf_fields value
    algorithm ← required (read_kdf_algorithm serde) "algorithm" f
    salt ← required (read_bytes serde base64) "salt" f
    memory_kib ← required (serde.unsigned 4294967296) "memoryKiB" f
    iterations ← required (serde.unsigned 4294967296) "iterations" f
    parallelism ← required (serde.unsigned 4294967296) "parallelism" f
    output_bytes ← required (serde.unsigned 4294967296) "outputBytes" f
    some (record {
      algorithm = algorithm;
      salt = salt;
      memory_kib = memory_kib;
      iterations = iterations;
      parallelism = parallelism;
      output_bytes = output_bytes;
    })

  -- `WrappedDekV1`
  unfoldable pub read_wrapped_dek : Value → Option WrappedDekV1
  read_wrapped_dek value = do
    f ← serde.fields wrapped_dek_fields value
    algorithm ← required (read_aead_algorithm serde) "algorithm" f
    nonce ← required (read_bytes serde base64) "nonce" f
    ciphertext ← required (read_bytes serde base64) "ciphertext" f
    some (record { algorithm = algorithm; nonce = nonce; ciphertext = ciphertext })

  -- `VaultMetaV1`
  unfoldable pub read_meta : Value → Option VaultMetaV1
  read_meta value = do
    f ← serde.fields meta_fields value
    format ← required serde.string "format" f
    version ← required (serde.unsigned 4294967296) "version" f
    vault_id ← required (read_vault_id serde base64) "vaultId" f
    created_at ← required (serde.unsigned 18446744073709551616) "createdAt" f
    kdf ← required read_kdf "kdf" f
    wrapped_dek ← required read_wrapped_dek "wrappedDek" f
    some (record {
      format = format;
      version = version;
      vault_id = vault_id;
      created_at = created_at;
      kdf = kdf;
      wrapped_dek = wrapped_dek;
    })

  -- `EncryptedVaultSlotV1`
  unfoldable pub read_slot : Value → Option EncryptedVaultSlotV1
  read_slot value = do
    f ← serde.fields slot_fields value
    format ← required serde.string "format" f
    version ← required (serde.unsigned 4294967296) "version" f
    vault_id ← required (read_vault_id serde base64) "vaultId" f
    slot ← required (read_slot_id serde) "slot" f
    generation ← required (serde.unsigned 18446744073709551616) "generation" f
    algorithm ← required (read_aead_algorithm serde) "algorithm" f
    nonce ← required (read_bytes serde base64) "nonce" f
    ciphertext ← required (read_bytes serde base64) "ciphertext" f
    some (record {
      format = format;
      version = version;
      vault_id = vault_id;
      slot = slot;
      generation = generation;
      algorithm = algorithm;
      nonce = nonce;
      ciphertext = ciphertext;
    })

-- `ActiveSlotV1`
unfoldable pub read_pointer : Serde → Value → Option ActiveSlotV1
read_pointer serde value = do
  f ← serde.fields pointer_fields value
  version ← required (serde.unsigned 4294967296) "version" f
  slot ← required (read_slot_id serde) "slot" f
  generation ← required (serde.unsigned 18446744073709551616) "generation" f
  some (record { version = version; slot = slot; generation = generation })
