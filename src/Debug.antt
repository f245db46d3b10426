-- ===== src/Debug.antt =====
-- The `Debug` implementations of crates/vault-core/src/model.rs and vault.rs, as the calls that
-- they make of the standard formatter. The derived ones show every field in the order of the
-- declaration.
use package.pocket_vault.Base.{ℕ, ◌≡◌, Bool, Bytes, String, List, length, count, Option}
use package.pocket_vault.Model.{
  VaultId, EntryId, EncodedBytes, SlotId, slot_a, slot_b, AeadAlgorithm, KdfAlgorithm, argon2id,
  xchacha20_poly1305, KdfParams, WrappedDekV1, VaultMetaV1, EncryptedVaultSlotV1, VaultEntry,
  VaultContainerV1,
}
use package.pocket_vault.Encoding.{Base64, encode_base64url}
use package.pocket_vault.Vault.{UnlockedVault}
use package.pocket_vault.Storage.{is_some}

mutual
  -- What a formatter is given: `debug_struct` and `debug_tuple` with their fields, a name written
  -- as it is, and the texts, numbers and truth values that stand in a field.
  pub data Shown : Type 0 where
    debug_struct : String → Fields → Shown
    debug_tuple : String → Fields → Shown
    written : String → Shown
    text : String → Shown
    number : ℕ → Shown
    truth : Bool → Shown

  -- The calls of `field`, and how they end; a field of a tuple has no name.
  pub data Fields : Type 0 where
    field : String → Shown → Fields → Fields
    unnamed : Shown → Fields → Fields
    finish finish_non_exhaustive : Fields

infixr 5 ◌▸◌
-- One field before others.
abbrev ◌▸◌ : (Fields → Fields) → Fields → Fields
f ▸ rest = f rest

module _ (base64 : Base64) where
  -- The macro's implementation, at both identifier types.
  unfoldable pub debug_vault_id : VaultId → Shown
  debug_vault_id id =
      debug_tuple "VaultId" (unnamed (text (encode_base64url base64 id.bytes)) finish)

  unfoldable pub debug_entry_id : EntryId → Shown
  debug_entry_id id =
      debug_tuple "EntryId" (unnamed (text (encode_base64url base64 id.bytes)) finish)

  unfoldable pub debug_encoded_bytes : EncodedBytes → Shown
  debug_encoded_bytes bytes =
      debug_struct "EncodedBytes"
        (field "decoded_len" (number (length bytes.as_slice)) ▸ finish_non_exhaustive)

  -- Derived
  unfoldable pub debug_slot_id : SlotId → Shown
  debug_slot_id slot_a = written "A"
  debug_slot_id slot_b = written "B"

  -- Derived
  unfoldable pub debug_aead_algorithm : AeadAlgorithm → Shown
  debug_aead_algorithm xchacha20_poly1305 = written "XChaCha20Poly1305"

  -- Derived
  unfoldable pub debug_kdf_algorithm : KdfAlgorithm → Shown
  debug_kdf_algorithm argon2id = written "Argon2id"

  -- Derived
  unfoldable pub debug_kdf_params : KdfParams → Shown
  debug_kdf_params kdf = debug_struct "KdfParams" (
      field "algorithm" (debug_kdf_algorithm kdf.algorithm)
      ▸ field "salt" (debug_encoded_bytes kdf.salt)
      ▸ field "memory_kib" (number kdf.memory_kib)
      ▸ field "iterations" (number kdf.iterations)
      ▸ field "parallelism" (number kdf.parallelism)
      ▸ field "output_bytes" (number kdf.output_bytes)
      ▸ finish)

  -- Derived
  unfoldable pub debug_wrapped_dek : WrappedDekV1 → Shown
  debug_wrapped_dek wrapped = debug_struct "WrappedDekV1" (
      field "algorithm" (debug_aead_algorithm wrapped.algorithm)
      ▸ field "nonce" (debug_encoded_bytes wrapped.nonce)
      ▸ field "ciphertext" (debug_encoded_bytes wrapped.ciphertext)
      ▸ finish)

  -- Derived
  unfoldable pub debug_meta : VaultMetaV1 → Shown
  debug_meta meta = debug_struct "VaultMetaV1" (
      field "format" (text meta.format)
      ▸ field "version" (number meta.version)
      ▸ field "vault_id" (debug_vault_id meta.vault_id)
      ▸ field "created_at" (number meta.created_at)
      ▸ field "kdf" (debug_kdf_params meta.kdf)
      ▸ field "wrapped_dek" (debug_wrapped_dek meta.wrapped_dek)
      ▸ finish)

  -- Derived
  unfoldable pub debug_encrypted_slot : EncryptedVaultSlotV1 → Shown
  debug_encrypted_slot slot = debug_struct "EncryptedVaultSlotV1" (
      field "format" (text slot.format)
      ▸ field "version" (number slot.version)
      ▸ field "vault_id" (debug_vault_id slot.vault_id)
      ▸ field "slot" (debug_slot_id slot.slot)
      ▸ field "generation" (number slot.generation)
      ▸ field "algorithm" (debug_aead_algorithm slot.algorithm)
      ▸ field "nonce" (debug_encoded_bytes slot.nonce)
      ▸ field "ciphertext" (debug_encoded_bytes slot.ciphertext)
      ▸ finish)

  unfoldable pub debug_entry : VaultEntry → Shown
  debug_entry entry = debug_struct "VaultEntry" (
      field "id" (debug_entry_id entry.id)
      ▸ field "title_chars" (number (count entry.title))
      ▸ field "secret" (text "[REDACTED]")
      ▸ field "has_description" (truth (is_some entry.description))
      ▸ field "created_at" (number entry.created_at)
      ▸ field "updated_at" (number entry.updated_at)
      ▸ finish)

  unfoldable pub debug_container : VaultContainerV1 → Shown
  debug_container container = debug_struct "VaultContainerV1" (
      field "format" (text container.format)
      ▸ field "version" (number container.version)
      ▸ field "vault_id" (debug_vault_id container.vault_id)
      ▸ field "generation" (number container.generation)
      ▸ field "created_at" (number container.created_at)
      ▸ field "updated_at" (number container.updated_at)
      ▸ field "entry_count" (number (length container.entries))
      ▸ finish)

  unfoldable pub debug_session : UnlockedVault → Shown
  debug_session vault = debug_struct "UnlockedVault" (
      field "container" (debug_container vault.container)
      ▸ field "dek" (text "[REDACTED]")
      ▸ field "persisted_slot" (debug_slot_id vault.persisted_slot)
      ▸ finish)

  -- Of a session, `Debug` shows neither the data key nor anything of the entries but their number;
  -- of an entry, neither the secret nor the text of the title and the description, but the title's
  -- length and whether there is a description; of stored metadata and of a stored slot, no
  -- encrypted bytes, nonce or salt but their lengths.
  pub debug_hides :
      (vault : UnlockedVault) (dek : Bytes) (entries : List VaultEntry) (entry : VaultEntry)
      (title secret : String) (description : Option String) (meta : VaultMetaV1)
      (salt nonce ciphertext : EncodedBytes) (slot : EncryptedVaultSlotV1)
      (nonce' ciphertext' : EncodedBytes)
      → length entries ≡ length vault.container.entries
      → count title ≡ count entry.title
      → is_some description ≡ is_some entry.description
      → length salt.as_slice ≡ length meta.kdf.salt.as_slice
      → length nonce.as_slice ≡ length meta.wrapped_dek.nonce.as_slice
      → length ciphertext.as_slice ≡ length meta.wrapped_dek.ciphertext.as_slice
      → length nonce'.as_slice ≡ length slot.nonce.as_slice
      → length ciphertext'.as_slice ≡ length slot.ciphertext.as_slice
      → (debug_session
            (record vault { dek = dek; container = record vault.container { entries = entries } })
          ≡ debug_session vault)
        × (debug_entry (record entry { title = title; secret = secret; description = description })
            ≡ debug_entry entry)
        × (debug_meta (record meta {
          kdf = record meta.kdf { salt = salt };
          wrapped_dek = record meta.wrapped_dek { nonce = nonce; ciphertext = ciphertext };
        })
            ≡ debug_meta meta)
        × (debug_encrypted_slot (record slot { nonce = nonce'; ciphertext = ciphertext' })
            ≡ debug_encrypted_slot slot)
  unfolding debug_session debug_container debug_entry debug_meta debug_kdf_params debug_wrapped_dek
      debug_encrypted_slot debug_encoded_bytes
  debug_hides vault dek entries entry title secret description meta salt nonce ciphertext slot
        nonce' ciphertext' h t d s n c n' c' =
      (cc, cc, cc, cc)
