-- ===== src/Model/Container.antt =====
-- crates/vault-core/src/model.rs: `VaultContainerV1`.
use package.pocket_vault.Base.{
  ℕ, ◌≡◌, ◌↔◌, Bool, true, false, not, ◌&&◌, ◌||◌, String, List, [], ◌∷◌, length, arith, Eq, ◌==◌,
  ==_iff, nat_eq, string_eq, list_eq, ltb, leb, Result, ok, guard, ◌>>◌, map_err,
}
use package.pocket_vault.Error.{VaultError, invalid_container, vault_too_large, duplicate_entry}
use package.pocket_vault.Model.Ids.{
  VaultId, EntryId, vault_id_eq, entry_id_eq, validate_format, max_entries,
}
use package.pocket_vault.Model.Meta.{format_error}
use package.pocket_vault.Model.Entry.{VaultEntry, vault_entry_eq, validate_entry}

pub record VaultContainerV1 : Type 0 where
  pub format : String
  pub version : ℕ
  pub vault_id : VaultId
  pub generation : ℕ
  pub created_at : ℕ
  pub updated_at : ℕ
  pub entries : List VaultEntry

-- Membership in the `HashSet` of identifiers.
abbrev pub contains_id : List EntryId → EntryId → Bool
contains_id [] id = false
contains_id (x ∷ ids) id = x == id || contains_id ids id

-- The body of the loop, for one entry: `ids` holds the identifiers of those before it.
unfoldable pub validate_member :
    VaultContainerV1 → List EntryId → VaultEntry → Result VaultError (Unit {0})
validate_member container ids entry = do
  validate_entry entry
  guard
      (not (ltb entry.created_at container.created_at || ltb container.updated_at entry.updated_at))
      (invalid_container "entry timestamps are outside the container timeline")
  guard (not (contains_id ids entry.id)) duplicate_entry

-- The loop over the entries.
unfoldable pub validate_entries :
    VaultContainerV1 → List EntryId → List VaultEntry → Result VaultError (Unit {0})
validate_entries container ids [] = ok tt
validate_entries container ids (entry ∷ entries) =
    validate_member container ids entry >> validate_entries container (entry.id ∷ ids) entries

-- `VaultContainerV1::validate`
unfoldable pub validate_container : VaultContainerV1 → VaultId → ℕ → Result VaultError (Unit {0})
validate_container container expected_vault_id expected_generation = do
  map_err (format_error (invalid_container "unexpected format name"))
      (validate_format container.format container.version)
  guard (container.vault_id == expected_vault_id) (invalid_container "vaultId does not match slot")
  guard (container.generation == expected_generation)
      (invalid_container "generation does not match slot")
  guard (not (ltb container.updated_at container.created_at))
      (invalid_container "container timestamps are inconsistent")
  guard (leb (length container.entries) max_entries) vault_too_large
  validate_entries container [] container.entries

abbrev pub vault_container_eqb : VaultContainerV1 → VaultContainerV1 → Bool
vault_container_eqb x y =
    x.format == y.format
    && x.version == y.version
    && x.vault_id == y.vault_id
    && x.generation == y.generation
    && x.created_at == y.created_at
    && x.updated_at == y.updated_at
    && x.entries == y.entries

pub vault_container_iff : (x y : VaultContainerV1) → (vault_container_eqb x y ≡ true) ↔ (x ≡ y)
vault_container_iff x y =
    ground
      (arith, ==_iff x.format y.format, ==_iff x.vault_id y.vault_id, ==_iff x.entries y.entries)

instance abbrev pub vault_container_eq : Eq VaultContainerV1
vault_container_eq = record { beq = vault_container_eqb; beq_iff = vault_container_iff }
