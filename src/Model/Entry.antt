-- ===== src/Model/Entry.antt =====
-- crates/vault-core/src/model.rs: `VaultEntry` and the inputs of its operations.
use package.pocket_vault.Base.{
  ℕ, ◌≡◌, ◌↔◌, Bool, true, not, ◌&&◌, String, len, count, Option, none, some, arith, Eq, ◌==◌,
  ==_iff, nat_eq, string_eq, option_eq, ltb, leb, in_range, Result, guard, ◌>>◌,
}
use package.pocket_vault.Error.{VaultError, invalid_container}
use package.pocket_vault.Model.Ids.{
  EntryId, entry_id_eq, max_title_chars, max_secret_bytes, max_description_chars,
}

pub record VaultEntry : Type 0 where
  pub id : EntryId
  pub title : String
  pub secret : String
  pub description : Option String
  pub created_at : ℕ
  pub updated_at : ℕ

pub record NewVaultEntry : Type 0 where
  pub title : String
  pub secret : String
  pub description : Option String

pub record UpdateVaultEntry : Type 0 where
  pub id : EntryId
  pub title : String
  pub secret : String
  pub description : Option String

-- `!description.is_some_and(|value| value.chars().count() > MAX_DESCRIPTION_CHARS)`
abbrev pub description_fits : Option String → Bool
description_fits none = true
description_fits (some value) = leb (count value) max_description_chars

-- `validate_entry_fields`; `count` counts characters and `len` bytes of UTF-8.
unfoldable pub validate_entry_fields :
    String → String → Option String → Result VaultError (Unit {0})
validate_entry_fields title secret description = do
  guard (in_range 1 max_title_chars (count title))
      (invalid_container "title length is out of bounds")
  guard (in_range 1 max_secret_bytes (len secret))
      (invalid_container "secret length is out of bounds")
  guard (description_fits description) (invalid_container "description length is out of bounds")

-- `VaultEntry::validate`
unfoldable pub validate_entry : VaultEntry → Result VaultError (Unit {0})
validate_entry entry = do
  validate_entry_fields entry.title entry.secret entry.description
  guard (not (ltb entry.updated_at entry.created_at))
      (invalid_container "entry timestamps are inconsistent")

abbrev pub vault_entry_eqb : VaultEntry → VaultEntry → Bool
vault_entry_eqb x y =
    x.id == y.id
    && x.title == y.title
    && x.secret == y.secret
    && x.description == y.description
    && x.created_at == y.created_at
    && x.updated_at == y.updated_at

pub vault_entry_iff : (x y : VaultEntry) → (vault_entry_eqb x y ≡ true) ↔ (x ≡ y)
vault_entry_iff x y = ground (
  arith,
  ==_iff x.id y.id,
  ==_iff x.title y.title,
  ==_iff x.secret y.secret,
  ==_iff x.description y.description,
)

instance abbrev pub vault_entry_eq : Eq VaultEntry
vault_entry_eq = record { beq = vault_entry_eqb; beq_iff = vault_entry_iff }
