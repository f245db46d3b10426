-- ===== src/Serde/Strict.antt =====
-- crates/vault-core/src/model.rs: `deny_unknown_fields` at each stored type.
use package.pocket_vault.Base.{
  true, ◌≡◌, ◌⊎◌, inl, inr, String, List, Option, none, Bool-cases, string_eq,
}
use package.pocket_vault.Encoding.{Base64}
use package.pocket_vault.Serde.Fields.{
  object, Members, is_known, has_member, Serde, SerdeLaws, ◌>>=◌,
}
use package.pocket_vault.Serde.Stored.{
  kdf_fields, wrapped_dek_fields, meta_fields, slot_fields, pointer_fields, read_kdf,
  read_wrapped_dek, read_meta, read_slot, read_pointer,
}
use package.pocket_vault.Serde.Contents.{entry_fields, container_fields, read_entry, read_container}

-- Whatever is done with the fields, an object with an unknown one is refused.
refused :
    {A : Type 0} (serde : Serde) (derived : SerdeLaws serde) (names : List String)
    (next : Members → Option A) (key : String) (members : Members)
    → has_member key members ≡ true
    → (is_known key names ≡ true) ⊎ ((serde.fields names (object members) >>= next) ≡ none)
refused serde derived names next key members present = elim (Bool-cases (is_known key names)) [
  | inl known ↦ inl known
  | inr unknown ↦ inr (rw (derived.fields-unknown names key members unknown present))
]

module _ (serde : Serde) (derived : SerdeLaws serde) (base64 : Base64) where
  -- An object with a member of some name is read at a stored type only if that name is one of the
  -- type's fields; otherwise it is refused.
  pub unknown_field_refused :
      (key : String) (members : Members)
      → has_member key members ≡ true
      → ((is_known key meta_fields ≡ true) ⊎ (read_meta serde base64 (object members) ≡ none))
        × ((is_known key kdf_fields ≡ true) ⊎ (read_kdf serde base64 (object members) ≡ none))
        × ((is_known key wrapped_dek_fields ≡ true)
            ⊎ (read_wrapped_dek serde base64 (object members) ≡ none))
        × ((is_known key slot_fields ≡ true) ⊎ (read_slot serde base64 (object members) ≡ none))
        × ((is_known key pointer_fields ≡ true) ⊎ (read_pointer serde (object members) ≡ none))
        × ((is_known key container_fields ≡ true)
            ⊎ (read_container serde base64 (object members) ≡ none))
        × ((is_known key entry_fields ≡ true) ⊎ (read_entry serde base64 (object members) ≡ none))
  unfolding read_meta read_kdf read_wrapped_dek read_slot read_pointer read_container read_entry
  unknown_field_refused key members present = (
    refused serde derived meta_fields _ key members present,
    refused serde derived kdf_fields _ key members present,
    refused serde derived wrapped_dek_fields _ key members present,
    refused serde derived slot_fields _ key members present,
    refused serde derived pointer_fields _ key members present,
    refused serde derived container_fields _ key members present,
    refused serde derived entry_fields _ key members present,
  )
