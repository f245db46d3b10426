-- ===== src/Serde/Contents.antt =====
-- crates/vault-core/src/model.rs: entries and containers in JSON.
use package.pocket_vault.Base.{String, List, [], ◌∷◌, Option, none, some}
use package.pocket_vault.Model.{VaultEntry, VaultContainerV1}
use package.pocket_vault.Encoding.{Base64}
use package.pocket_vault.Serde.Fields.{
  Value, number, text, array, object, Elements, no_elements, more_elements, Members, no_members,
  member, Serde, required, optional, ◌>>=◌,
}
use package.pocket_vault.Serde.Keys.{write_vault_id, read_vault_id, write_entry_id, read_entry_id}

abbrev pub entry_fields : List String
entry_fields = "id" ∷ "title" ∷ "secret" ∷ "description" ∷ "createdAt" ∷ "updatedAt" ∷ []

abbrev pub container_fields : List String
container_fields =
    "format" ∷ "version" ∷ "vaultId" ∷ "generation" ∷ "createdAt" ∷ "updatedAt" ∷ "entries" ∷ []

-- `skip_serializing_if = "Option::is_none"`
abbrev pub member_if_some : String → Option String → Members → Members
member_if_some name none members = members
member_if_some name (some s) members = member name (text s) members

module _ (base64 : Base64) where
  -- `VaultEntry`
  abbrev pub entry_members : VaultEntry → Members
  entry_members x = member "id" (write_entry_id base64 x.id) (
      member "title" (text x.title) (
        member "secret" (text x.secret) (
          member_if_some "description" x.description (
            member "createdAt" (number x.created_at)
              (member "updatedAt" (number x.updated_at) no_members)))))

  unfoldable pub write_entry : VaultEntry → Value
  write_entry x = object (entry_members x)

  -- `Vec<VaultEntry>`
  unfoldable pub write_entries : List VaultEntry → Elements
  write_entries [] = no_elements
  write_entries (x ∷ xs) = more_elements (write_entry x) (write_entries xs)

  -- `VaultContainerV1`
  abbrev pub container_members : VaultContainerV1 → Members
  container_members x = member "format" (text x.format) (
      member "version" (number x.version) (
        member "vaultId" (write_vault_id base64 x.vault_id) (
          member "generation" (number x.generation) (
            member "createdAt" (number x.created_at) (
              member "updatedAt" (number x.updated_at)
                (member "entries" (array (write_entries x.entries)) no_members))))))

  unfoldable pub write_container : VaultContainerV1 → Value
  write_container x = object (container_members x)

module _ (serde : Serde) (base64 : Base64) where
  -- `VaultEntry`
  unfoldable pub read_entry : Value → Option VaultEntry
  read_entry value = do
    f ← serde.fields entry_fields value
    id ← required (read_entry_id serde base64) "id" f
    title ← required serde.string "title" f
    secret ← required serde.string "secret" f
    description ← optional serde.string "description" f
    created_at ← required (serde.unsigned 18446744073709551616) "createdAt" f
    updated_at ← required (serde.unsigned 18446744073709551616) "updatedAt" f
    some (record {
      id = id;
      title = title;
      secret = secret;
      description = description;
      created_at = created_at;
      updated_at = updated_at;
    })

  -- `Vec<VaultEntry>`
  unfoldable pub read_elements : Elements → Option (List VaultEntry)
  read_elements no_elements = some []
  read_elements (more_elements value rest) = do
    x ← read_entry value
    xs ← read_elements rest
    some (x ∷ xs)

  abbrev pub read_entries : Value → Option (List VaultEntry)
  read_entries value = do values ← serde.elements value; read_elements values

  -- `VaultContainerV1`
  unfoldable pub read_container : Value → Option VaultContainerV1
  read_container value = do
    f ← serde.fields container_fields value
    format ← required serde.string "format" f
    version ← required (serde.unsigned 4294967296) "version" f
    vault_id ← required (read_vault_id serde base64) "vaultId" f
    generation ← required (serde.unsigned 18446744073709551616) "generation" f
    created_at ← required (serde.unsigned 18446744073709551616) "createdAt" f
    updated_at ← required (serde.unsigned 18446744073709551616) "updatedAt" f
    entries ← required read_entries "entries" f
    some (record {
      format = format;
      version = version;
      vault_id = vault_id;
      generation = generation;
      created_at = created_at;
      updated_at = updated_at;
      entries = entries;
    })
