-- ===== src/Serde/Keys.antt =====
-- crates/vault-core/src/model.rs: the identifiers, bytes and enums in JSON.
use mathlib.Core.Option
use package.pocket_vault.Base.{
  Bool, ◌&&◌, Bytes, Option, none, some, length, all, ltb, to_option, ◌==◌, nat_eq, string_eq,
  if◌then◌else◌,
}
use package.pocket_vault.Model.{
  VaultId, EntryId, EncodedBytes, KdfAlgorithm, argon2id, AeadAlgorithm, xchacha20_poly1305, SlotId,
  slot_a, slot_b,
}
use package.pocket_vault.Encoding.{
  Base64, encode_base64url, decode_base64url, vault_id_from_base64url, entry_id_from_base64url,
}
use package.pocket_vault.Serde.Fields.{Value, text, Serde, ◌>>=◌}

-- A list that the type `[u8; N]` holds, or `Vec<u8>`.
abbrev pub are_bytes : Bytes → Bool
are_bytes = all (λ b. ltb b 256)

abbrev pub is_id : Bytes → Bool
is_id bytes = length bytes == 16 && are_bytes bytes

module _ (base64 : Base64) where
  -- `Serialize` of the identifiers and of `EncodedBytes`
  unfoldable pub write_vault_id : VaultId → Value
  write_vault_id id = text (encode_base64url base64 id.bytes)

  unfoldable pub write_entry_id : EntryId → Value
  write_entry_id id = text (encode_base64url base64 id.bytes)

  unfoldable pub write_bytes : EncodedBytes → Value
  write_bytes bytes = text (encode_base64url base64 bytes.as_slice)

module _ (serde : Serde) (base64 : Base64) where
  -- `Deserialize` of the identifiers and of `EncodedBytes`
  unfoldable pub read_vault_id : Value → Option VaultId
  read_vault_id value = do
    encoded ← serde.string value
    to_option (vault_id_from_base64url base64 encoded)

  unfoldable pub read_entry_id : Value → Option EntryId
  read_entry_id value = do
    encoded ← serde.string value
    to_option (entry_id_from_base64url base64 encoded)

  unfoldable pub read_bytes : Value → Option EncodedBytes
  read_bytes value = do
    encoded ← serde.string value
    Option.map (λ bytes. record { as_slice = bytes }) (to_option (decode_base64url base64 encoded))

-- The enums, by their attributes.
abbrev pub write_kdf_algorithm : KdfAlgorithm → Value
write_kdf_algorithm argon2id = text "argon2id"

abbrev pub read_kdf_algorithm : Serde → Value → Option KdfAlgorithm
read_kdf_algorithm serde value =
    serde.variant value >>= λ name. if name == "argon2id" then some argon2id else none

abbrev pub write_aead_algorithm : AeadAlgorithm → Value
write_aead_algorithm xchacha20_poly1305 = text "xchacha20-poly1305"

abbrev pub read_aead_algorithm : Serde → Value → Option AeadAlgorithm
read_aead_algorithm serde value = serde.variant value >>= λ name.
    if name == "xchacha20-poly1305" then some xchacha20_poly1305 else none

abbrev pub write_slot_id : SlotId → Value
write_slot_id slot_a = text "a"
write_slot_id slot_b = text "b"

abbrev pub read_slot_id : Serde → Value → Option SlotId
read_slot_id serde value = serde.variant value >>= λ name.
    if name == "a" then some slot_a else if name == "b" then some slot_b else none
