-- ===== src/Crypto/Aad.antt =====
-- crates/vault-core/src/crypto.rs: the associated data that bind a ciphertext to its place.
use package.pocket_vault.Base.{ℕ, Bytes, [], ◌∷◌, ◌++◌, length, to_be_bytes, as_bytes}
use package.pocket_vault.Model.{VaultId, SlotId, aad_byte, format_name, format_version}

abbrev pub kek_info : Bytes
kek_info = as_bytes "pocket-vault/local-kek/v1"

abbrev pub wrapped_dek_object : Bytes
wrapped_dek_object = as_bytes "wrapped-dek"

abbrev pub vault_slot_object : Bytes
vault_slot_object = as_bytes "vault-slot"

-- `push_aad_field`. The source panics on a field of 2 ^ 32 bytes or more; each field that it pushes
-- is a constant, a word or a `[u8; 16]`.
unfoldable pub push_aad_field : Bytes → Bytes → Bytes
unfolding to_be_bytes
push_aad_field output value = output ++ (to_be_bytes 4 (length value) ++ value)

-- `wrapped_dek_aad`
unfoldable pub wrapped_dek_aad : VaultId → Bytes
wrapped_dek_aad vault_id =
    let format = push_aad_field [] (as_bytes format_name) in
    let object = push_aad_field format wrapped_dek_object in
    let version = push_aad_field object (to_be_bytes 4 format_version) in
    push_aad_field version vault_id.bytes

-- `vault_slot_aad`
unfoldable pub vault_slot_aad : VaultId → SlotId → ℕ → Bytes
vault_slot_aad vault_id slot generation =
    let format = push_aad_field [] (as_bytes format_name) in
    let object = push_aad_field format vault_slot_object in
    let version = push_aad_field object (to_be_bytes 4 format_version) in
    let owner = push_aad_field version vault_id.bytes in
    let place = push_aad_field owner (aad_byte slot ∷ []) in
    push_aad_field place (to_be_bytes 8 generation)
