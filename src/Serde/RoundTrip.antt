-- ===== src/Serde/RoundTrip.antt =====
-- crates/vault-core/src/model.rs: reading what was written, at each stored type.
use package.pocket_vault.Base.{
  Bool, true, ◌&&◌, ◌≡◌, ◌<◌, refl, Bytes, [], ◌∷◌, All, some, ok, arith, nat_eq,
}
use package.pocket_vault.Model.{
  VaultId, EntryId, EncodedBytes, KdfAlgorithm, argon2id, AeadAlgorithm, xchacha20_poly1305, SlotId,
  slot_a, slot_b, KdfParams, WrappedDekV1, VaultMetaV1, EncryptedVaultSlotV1, ActiveSlotV1,
}
use package.pocket_vault.Encoding.{
  Base64, Base64Laws, encode_base64url, decode_base64url, entry_id_to_base64url,
  vault_id_from_base64url, decode_base64url_array,
}
use package.pocket_vault.Encoding.RoundTrip.{entry_id_from-to_base64url}
use package.pocket_vault.Serde.Fields.{Serde, SerdeLaws}
use package.pocket_vault.Serde.Keys.{
  are_bytes, is_id, write_vault_id, read_vault_id, write_entry_id, read_entry_id, write_bytes,
  read_bytes, write_kdf_algorithm, read_kdf_algorithm, write_aead_algorithm, read_aead_algorithm,
  write_slot_id, read_slot_id,
}
use package.pocket_vault.Serde.Stored.{
  is_u32, is_u64, kdf_fields, wrapped_dek_fields, meta_fields, slot_fields, pointer_fields,
  kdf_members, wrapped_dek_members, meta_members, slot_members, pointer_members, write_kdf,
  read_kdf, write_wrapped_dek, read_wrapped_dek, write_meta, read_meta, write_slot, read_slot,
  write_pointer, read_pointer,
}

-- The numbers and bytes of a value are those of its type in the source.
abbrev pub kdf_fits : KdfParams → Bool
kdf_fits x =
    are_bytes x.salt.as_slice
    && (is_u32 x.memory_kib
        && (is_u32 x.iterations && (is_u32 x.parallelism && is_u32 x.output_bytes)))

abbrev pub wrapped_dek_fits : WrappedDekV1 → Bool
wrapped_dek_fits x = are_bytes x.nonce.as_slice && are_bytes x.ciphertext.as_slice

abbrev pub meta_fits : VaultMetaV1 → Bool
meta_fits x =
    is_u32 x.version
    && (is_id x.vault_id.bytes
        && (is_u64 x.created_at && (kdf_fits x.kdf && wrapped_dek_fits x.wrapped_dek)))

abbrev pub slot_fits : EncryptedVaultSlotV1 → Bool
slot_fits x =
    is_u32 x.version
    && (is_id x.vault_id.bytes
        && (is_u64 x.generation && (are_bytes x.nonce.as_slice && are_bytes x.ciphertext.as_slice)))

abbrev pub pointer_fits : ActiveSlotV1 → Bool
pointer_fits x = is_u32 x.version && is_u64 x.generation

pub are_bytes-All : (bytes : Bytes) → are_bytes bytes ≡ true → All (λ b. b < 256) bytes
are_bytes-All [] h = tt
are_bytes-All (b ∷ bytes) h = (ground (arith, h), are_bytes-All bytes (ground (arith, h)))

module _ (serde : Serde) (derived : SerdeLaws serde) where
  read-write_kdf_algorithm :
      (x : KdfAlgorithm) → read_kdf_algorithm serde (write_kdf_algorithm x) ≡ some x
  read-write_kdf_algorithm argon2id = ground (arith, derived.variant-text "argon2id")

  read-write_aead_algorithm :
      (x : AeadAlgorithm) → read_aead_algorithm serde (write_aead_algorithm x) ≡ some x
  read-write_aead_algorithm xchacha20_poly1305 =
      ground (arith, derived.variant-text "xchacha20-poly1305")

  read-write_slot_id : (x : SlotId) → read_slot_id serde (write_slot_id x) ≡ some x
  read-write_slot_id slot_a = ground (arith, derived.variant-text "a")
  read-write_slot_id slot_b = ground (arith, derived.variant-text "b")

  pub read-write_pointer :
      (x : ActiveSlotV1) → pointer_fits x ≡ true → read_pointer serde (write_pointer x) ≡ some x
  unfolding read_pointer write_pointer
  read-write_pointer x h = ground (
    arith,
    h,
    derived.fields-object pointer_fields (pointer_members x) refl,
    derived.unsigned-number 4294967296 x.version,
    derived.unsigned-number 18446744073709551616 x.generation,
    read-write_slot_id x.slot,
  )

module _ (serde : Serde) (derived : SerdeLaws serde) (base64 : Base64)
    (laws : Base64Laws base64) where
  decode-encode :
      (bytes : Bytes)
      → are_bytes bytes ≡ true
      → decode_base64url base64 (encode_base64url base64 bytes) ≡ ok bytes
  unfolding decode_base64url encode_base64url
  decode-encode bytes h =
      ground
        (arith, laws.has_padding-encode bytes, laws.decode-encode bytes (are_bytes-All bytes h))

  read-write_bytes :
      (x : EncodedBytes)
      → are_bytes x.as_slice ≡ true
      → read_bytes serde base64 (write_bytes base64 x) ≡ some x
  unfolding read_bytes write_bytes
  read-write_bytes x h =
      ground (
        arith,
        derived.string-text (encode_base64url base64 x.as_slice),
        decode-encode x.as_slice h,
      )

  pub read-write_vault_id :
      (x : VaultId)
      → is_id x.bytes ≡ true
      → read_vault_id serde base64 (write_vault_id base64 x) ≡ some x
  unfolding read_vault_id write_vault_id vault_id_from_base64url decode_base64url_array
  read-write_vault_id x h =
      ground
        (arith, h, derived.string-text (encode_base64url base64 x.bytes), decode-encode x.bytes)

  pub read-write_entry_id :
      (x : EntryId)
      → is_id x.bytes ≡ true
      → read_entry_id serde base64 (write_entry_id base64 x) ≡ some x
  unfolding read_entry_id write_entry_id entry_id_to_base64url
  read-write_entry_id x h =
      let bytes = are_bytes-All x.bytes (ground (arith, h)) in
      let back = entry_id_from-to_base64url base64 laws x (ground (arith, h)) bytes in
      ground (arith, derived.string-text (encode_base64url base64 x.bytes), back)

  read-write_kdf :
      (x : KdfParams) → kdf_fits x ≡ true → read_kdf serde base64 (write_kdf base64 x) ≡ some x
  unfolding read_kdf write_kdf
  read-write_kdf x h = ground (
    arith,
    h,
    derived.fields-object kdf_fields (kdf_members base64 x) refl,
    derived.unsigned-number 4294967296 x.memory_kib,
    derived.unsigned-number 4294967296 x.iterations,
    derived.unsigned-number 4294967296 x.parallelism,
    derived.unsigned-number 4294967296 x.output_bytes,
    read-write_bytes x.salt,
    read-write_kdf_algorithm serde derived x.algorithm,
  )

  read-write_wrapped_dek :
      (x : WrappedDekV1)
      → wrapped_dek_fits x ≡ true
      → read_wrapped_dek serde base64 (write_wrapped_dek base64 x) ≡ some x
  unfolding read_wrapped_dek write_wrapped_dek
  read-write_wrapped_dek x h = ground (
    arith,
    h,
    derived.fields-object wrapped_dek_fields (wrapped_dek_members base64 x) refl,
    read-write_bytes x.nonce,
    read-write_bytes x.ciphertext,
    read-write_aead_algorithm serde derived x.algorithm,
  )

  pub read-write_meta :
      (x : VaultMetaV1) → meta_fits x ≡ true → read_meta serde base64 (write_meta base64 x) ≡ some x
  unfolding read_meta write_meta
  read-write_meta x h = ground (
    arith,
    h,
    derived.fields-object meta_fields (meta_members base64 x) refl,
    derived.unsigned-number 4294967296 x.version,
    derived.unsigned-number 18446744073709551616 x.created_at,
    derived.string-text x.format,
    read-write_vault_id x.vault_id,
    read-write_kdf x.kdf,
    read-write_wrapped_dek x.wrapped_dek,
  )

  pub read-write_slot :
      (x : EncryptedVaultSlotV1)
      → slot_fits x ≡ true
      → read_slot serde base64 (write_slot base64 x) ≡ some x
  unfolding read_slot write_slot
  read-write_slot x h = ground (
    arith,
    h,
    derived.fields-object slot_fields (slot_members base64 x) refl,
    derived.unsigned-number 4294967296 x.version,
    derived.unsigned-number 18446744073709551616 x.generation,
    derived.string-text x.format,
    read-write_vault_id x.vault_id,
    read-write_bytes x.nonce,
    read-write_bytes x.ciphertext,
    read-write_aead_algorithm serde derived x.algorithm,
    read-write_slot_id serde derived x.slot,
  )
