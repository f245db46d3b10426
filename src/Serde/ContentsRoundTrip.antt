-- ===== src/Serde/ContentsRoundTrip.antt =====
-- crates/vault-core/src/model.rs: reading entries and containers that were written.
use package.pocket_vault.Base.{
  Bool, true, ◌&&◌, ◌≡◌, refl, List, [], ◌∷◌, some, none, all, arith, Option-cases, inl, inr,
}
use package.pocket_vault.Model.{VaultEntry, VaultContainerV1}
use package.pocket_vault.Encoding.{Base64, Base64Laws}
use package.pocket_vault.Serde.Fields.{Serde, SerdeLaws}
use package.pocket_vault.Serde.Keys.{is_id}
use package.pocket_vault.Serde.Stored.{is_u32, is_u64}
use package.pocket_vault.Serde.Contents.{
  entry_fields, container_fields, entry_members, container_members, write_entry, read_entry,
  write_entries, read_elements, write_container, read_container,
}
use package.pocket_vault.Serde.RoundTrip.{read-write_entry_id, read-write_vault_id}

abbrev pub entry_fits : VaultEntry → Bool
entry_fits x = is_id x.id.bytes && (is_u64 x.created_at && is_u64 x.updated_at)

abbrev pub container_fits : VaultContainerV1 → Bool
container_fits x =
    is_u32 x.version
    && (is_id x.vault_id.bytes
        && (is_u64 x.generation
            && (is_u64 x.created_at && (is_u64 x.updated_at && all entry_fits x.entries))))

module _ (serde : Serde) (derived : SerdeLaws serde) (base64 : Base64)
    (laws : Base64Laws base64) where
  pub read-write_entry :
      (x : VaultEntry)
      → entry_fits x ≡ true
      → read_entry serde base64 (write_entry base64 x) ≡ some x
  unfolding read_entry write_entry
  read-write_entry x h = elim (Option-cases x.description) [
    | inl missing ↦ ground (
      arith,
      h,
      missing,
      derived.fields-object entry_fields (entry_members base64 (record x { description = none }))
          refl,
      derived.string-text x.title,
      derived.string-text x.secret,
      derived.unsigned-number 18446744073709551616 x.created_at,
      derived.unsigned-number 18446744073709551616 x.updated_at,
      read-write_entry_id serde derived base64 laws x.id,
    )
    | inr (s, given) ↦ ground (
      arith,
      h,
      given,
      derived.string-text s,
      derived.fields-object entry_fields (entry_members base64 (record x { description = some s }))
          refl,
      derived.string-text x.title,
      derived.string-text x.secret,
      derived.unsigned-number 18446744073709551616 x.created_at,
      derived.unsigned-number 18446744073709551616 x.updated_at,
      read-write_entry_id serde derived base64 laws x.id,
    )
  ]

  read-write_entries :
      (xs : List VaultEntry)
      → all entry_fits xs ≡ true
      → read_elements serde base64 (write_entries base64 xs) ≡ some xs
  unfolding read_elements write_entries
  read-write_entries [] h = refl
  read-write_entries (x ∷ xs) h = ground (arith, h, read-write_entry x, read-write_entries xs)

  pub read-write_container :
      (x : VaultContainerV1)
      → container_fits x ≡ true
      → read_container serde base64 (write_container base64 x) ≡ some x
  unfolding read_container write_container
  read-write_container x h = ground (
    arith,
    h,
    derived.fields-object container_fields (container_members base64 x) refl,
    derived.string-text x.format,
    derived.unsigned-number 4294967296 x.version,
    derived.unsigned-number 18446744073709551616 x.generation,
    derived.unsigned-number 18446744073709551616 x.created_at,
    derived.unsigned-number 18446744073709551616 x.updated_at,
    derived.elements-array (write_entries base64 x.entries),
    read-write_vault_id serde derived base64 laws x.vault_id,
    read-write_entries x.entries,
  )
