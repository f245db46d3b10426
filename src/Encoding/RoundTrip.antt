-- ===== src/Encoding/RoundTrip.antt =====
-- crates/vault-core/src/encoding.rs: writing and reading identifiers.
use package.pocket_vault.Base.{
  ◌<◌, ◌≡◌, ◌↔◌, false, String, some, length, All, Option-cases, inl, inr, ok, arith, nat_eq,
}
use package.pocket_vault.Model.{EntryId}
use package.pocket_vault.Encoding.{
  Base64, Base64Laws, has_padding, encode_base64url, decode_base64url, decode_base64url_array,
  entry_id_to_base64url, entry_id_from_base64url,
}

module _ (base64 : Base64) where
  -- An identifier is read exactly from a text without padding that the engine decodes to its bytes,
  -- of which there are sixteen.
  entry_id_from_base64url_iff :
      (value : String) (id : EntryId)
      → (entry_id_from_base64url base64 value ≡ ok id) ↔ (
          (has_padding value ≡ false)
          × (base64.decode value ≡ some id.bytes)
          × (length id.bytes ≡ 16))
  unfolding entry_id_from_base64url decode_base64url_array decode_base64url
  entry_id_from_base64url_iff value id = elim (Option-cases (base64.decode value)) [
    | inl failed ↦ (λ h. ground (arith, failed), λ h. ground (arith, failed))
    | inr (bytes, decoded) ↦ (λ h. ground (arith, decoded), λ h. ground (arith, decoded))
  ]

  -- An identifier of sixteen bytes is read back from its text.
  pub entry_id_from-to_base64url :
      (laws : Base64Laws base64) (id : EntryId)
      → length id.bytes ≡ 16
      → All (λ b. b < 256) id.bytes
      → entry_id_from_base64url base64 (entry_id_to_base64url base64 id) ≡ ok id
  unfolding entry_id_to_base64url encode_base64url
  entry_id_from-to_base64url laws id size bytes =
      (entry_id_from_base64url_iff (base64.encode id.bytes) id).1
        (laws.has_padding-encode id.bytes, laws.decode-encode id.bytes bytes, size)
