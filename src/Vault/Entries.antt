-- ===== src/Vault/Entries.antt =====
-- crates/vault-core/src/vault.rs: adding, updating and deleting entries.
use Prim.Native.Nat.{max}
use package.pocket_vault.Base.{
  ℕ, zero, suc, not, Bool, true, false, String, List, [], ◌∷◌, ◌++◌, length, ltb, find, all,
  position, remove_at, modify_first, Option, none, some, ◌==◌, if◌then◌else◌, Result, ok, err,
  ok_or,
}
use package.pocket_vault.Base as B
use package.pocket_vault.Base.Exec.{Exec, lift, ◌>>◌}
use package.pocket_vault.Error.{
  VaultError, random_generation_failed, entry_not_found, vault_too_large,
}
use package.pocket_vault.Model.{
  EntryId, entry_id_eq, VaultEntry, NewVaultEntry, UpdateVaultEntry, validate_entry_fields,
  max_entries,
}
use package.pocket_vault.Platform.{Platform}
use package.pocket_vault.Crypto.{random_array}
use package.pocket_vault.Vault.Session.{UnlockedVault}
use package.pocket_vault.Vault.Open.{id_bytes}

abbrev pub max_id_generation_attempts : ℕ
max_id_generation_attempts = 8

abbrev pub has_id : EntryId → VaultEntry → Bool
has_id id entry = entry.id == id

module _ {R : Type 0} (platform : Platform R) where
  -- The loop of `generate_unique_entry_id`, with the attempts that are left.
  unfoldable pub draw_id : ℕ → List VaultEntry → Exec R VaultError EntryId
  draw_id zero entries rng = (err random_generation_failed, rng)
  draw_id (suc attempts) entries rng =
      let (drawn, rng') = random_array platform id_bytes rng in
      elim drawn [
        | err e ↦ (err e, rng')
        | ok bytes ↦
            let again = draw_id attempts entries rng' in
            let id : EntryId = record { bytes = bytes } in
            if all (λ entry. not (has_id id entry)) entries then (ok id, rng') else again
      ]

  -- `generate_unique_entry_id`
  unfoldable pub generate_unique_entry_id : UnlockedVault → Exec R VaultError EntryId
  generate_unique_entry_id vault = draw_id max_id_generation_attempts vault.container.entries

  -- The checks of `add_entry`, and its new identifier.
  unfoldable pub admit_entry : UnlockedVault → NewVaultEntry → Exec R VaultError EntryId
  admit_entry vault input = do
    lift (validate_entry_fields input.title input.secret input.description)
    lift (B.guard (ltb (length vault.container.entries) max_entries) vault_too_large)
    generate_unique_entry_id vault

-- The writes of `add_entry`, once it has the identifier.
unfoldable pub push_entry : UnlockedVault → EntryId → NewVaultEntry → ℕ → UnlockedVault
push_entry vault id input now =
    let timestamp = max now vault.container.updated_at in
    let entry : VaultEntry = record {
      id = id;
      title = input.title;
      secret = input.secret;
      description = input.description;
      created_at = timestamp;
      updated_at = timestamp;
    } in
    record vault {
      container = record vault.container {
        entries = vault.container.entries ++ entry ∷ [];
        updated_at = timestamp;
      };
    }

-- `add_entry`: the result, the session and the random source after it.
unfoldable pub add_entry :
    {R : Type 0}
    → Platform R
    → UnlockedVault
    → NewVaultEntry
    → ℕ
    → R
    → Result VaultError EntryId × UnlockedVault × R
add_entry platform vault input now rng =
    let (admitted, rng') = admit_entry platform vault input rng in
    elim admitted [
      | ok id ↦ (ok id, push_entry vault id input now, rng')
      | err e ↦ (err e, vault, rng')
    ]

-- The writes of `update_entry` to the entry that it found.
unfoldable pub overwrite : UpdateVaultEntry → ℕ → VaultEntry → VaultEntry
overwrite input timestamp entry = record entry {
  title = input.title;
  secret = input.secret;
  description = input.description;
  updated_at = max timestamp entry.created_at;
}

-- `update_entry`
unfoldable pub update_entry : UpdateVaultEntry → ℕ → Exec UnlockedVault VaultError (Unit {0})
update_entry input now vault =
    let timestamp = max now vault.container.updated_at in
    let found : Result VaultError VaultEntry =
      B.◌>>◌ (validate_entry_fields input.title input.secret input.description)
        (ok_or (find (has_id input.id) vault.container.entries) entry_not_found) in
    elim found [
      | err e ↦ (err e, vault)
      | ok _ ↦ (
        ok tt,
        record vault {
          container = record vault.container {
            entries =
                modify_first (has_id input.id) (overwrite input timestamp) vault.container.entries;
            updated_at = timestamp;
          };
        },
      )
    ]

-- `delete_entry`
unfoldable pub delete_entry : EntryId → ℕ → Exec UnlockedVault VaultError (Unit {0})
delete_entry id now vault = elim (position (has_id id) vault.container.entries) [
  | none ↦ (err entry_not_found, vault)
  | some index ↦ (
    ok tt,
    record vault {
      container = record vault.container {
        entries = remove_at index vault.container.entries;
        updated_at = max now vault.container.updated_at;
      };
    },
  )
]
