-- ===== src/Bridge/Entries.antt =====
-- crates/vault-wasm/src/bridge.rs: the calls that read and edit entries.
use package.pocket_vault.Base.{
  ℕ, String, List, map, find, Option, some, Result, ok, err, ok_or, map_err, ◌>>=◌,
}
use package.pocket_vault.Error.{invalid_container, entry_not_found}
use package.pocket_vault.Model.{EntryId, VaultEntry, NewVaultEntry, UpdateVaultEntry}
use package.pocket_vault.Platform.{Platform}
use package.pocket_vault.Encoding.{Base64, entry_id_to_base64url, entry_id_from_base64url}
use package.pocket_vault.Vault as V
use package.pocket_vault.Vault.{UnlockedVault, has_id}
use package.pocket_vault.Bridge.State.{
  BridgeError, in_vault, locked, serialization, VaultBridge, ensure_mutable,
}

-- `EntrySummary`
pub record EntrySummary : Type 0 where
  pub id : String
  pub title : String
  pub created_at : ℕ
  pub updated_at : ℕ

-- `EntryDetails`
pub record EntryDetails : Type 0 where
  pub id : String
  pub title : String
  pub description : Option String
  pub created_at : ℕ
  pub updated_at : ℕ

-- `serde_json::to_string` at the types of the payloads.
pub record Payloads : Type 0 where
  pub summaries_json : List EntrySummary → Option String
  pub entry_json : VaultEntry → Option String
  pub details_json : EntryDetails → Option String

-- `vault_ref`
abbrev pub vault_ref : VaultBridge → Result BridgeError UnlockedVault
vault_ref bridge = ok_or bridge.vault locked

module _ (base64 : Base64) where
  -- `parse_entry_id`
  unfoldable pub parse_entry_id : String → Result BridgeError EntryId
  parse_entry_id value =
      map_err (λ _. in_vault (invalid_container "entry ID is invalid"))
        (entry_id_from_base64url base64 value)

  -- `entry`
  unfoldable pub entry : String → VaultBridge → Result BridgeError VaultEntry
  entry id bridge = parse_entry_id id >>= λ entry_id. vault_ref bridge >>= λ vault.
      ok_or (find (has_id entry_id) vault.container.entries) (in_vault entry_not_found)

  abbrev pub summary_of : VaultEntry → EntrySummary
  summary_of e = record {
    id = entry_id_to_base64url base64 e.id;
    title = e.title;
    created_at = e.created_at;
    updated_at = e.updated_at;
  }

  abbrev pub details_of : VaultEntry → EntryDetails
  details_of e = record {
    id = entry_id_to_base64url base64 e.id;
    title = e.title;
    description = e.description;
    created_at = e.created_at;
    updated_at = e.updated_at;
  }

  -- `list_entries_json`
  unfoldable pub list_entries_json : Payloads → VaultBridge → Result BridgeError String
  list_entries_json payloads bridge = vault_ref bridge >>= λ vault.
      ok_or (payloads.summaries_json (map summary_of vault.container.entries)) serialization

  -- `get_entry_json`
  unfoldable pub get_entry_json : Payloads → String → VaultBridge → Result BridgeError String
  get_entry_json payloads id bridge =
      entry id bridge >>= λ e. ok_or (payloads.entry_json e) serialization

  -- `get_entry_details_json`
  unfoldable pub get_entry_details_json :
      Payloads → String → VaultBridge → Result BridgeError String
  get_entry_details_json payloads id bridge =
      entry id bridge >>= λ e. ok_or (payloads.details_json (details_of e)) serialization

  -- `get_entry_secret`
  unfoldable pub get_entry_secret : String → VaultBridge → Result BridgeError String
  get_entry_secret id bridge = entry id bridge >>= λ e. ok e.secret

  -- `add_entry`: the result, the bridge and the random source after it.
  unfoldable pub add_entry :
      {R : Type 0}
      → Platform R
      → String
      → String
      → Option String
      → ℕ
      → VaultBridge
      → R
      → Result BridgeError String × VaultBridge × R
  add_entry platform title secret description now bridge rng = elim (ensure_mutable bridge) [
    | err e ↦ (err e, bridge, rng)
    | ok vault ↦
        let input : NewVaultEntry = record {
          title = title;
          secret = secret;
          description = description;
        } in
        let (added, vault', rng') = V.add_entry platform vault input now rng in
        let bridge' : VaultBridge = record bridge { vault = some vault' } in
        elim added [
          | err e ↦ (err (in_vault e), bridge', rng')
          | ok id ↦ (ok (entry_id_to_base64url base64 id), bridge', rng')
        ]
  ]

  -- The guard and the parsing with which `update_entry` and `delete_entry` begin.
  abbrev pub edited : String → VaultBridge → Result BridgeError (EntryId × UnlockedVault)
  edited id bridge =
      ensure_mutable bridge >>= λ vault. parse_entry_id id >>= λ entry_id. ok (entry_id, vault)

  -- `update_entry`
  unfoldable pub update_entry :
      String
      → String
      → String
      → Option String
      → ℕ
      → VaultBridge
      → Result BridgeError (Unit {0}) × VaultBridge
  update_entry id title secret description now bridge = elim (edited id bridge) [
    | err e ↦ (err e, bridge)
    | ok found ↦
        let change : UpdateVaultEntry = record {
          id = found.0;
          title = title;
          secret = secret;
          description = description;
        } in
        let (done, vault') = V.update_entry change now found.1 in
        (map_err in_vault done, record bridge { vault = some vault' })
  ]

  -- `delete_entry`
  unfoldable pub delete_entry :
      String → ℕ → VaultBridge → Result BridgeError (Unit {0}) × VaultBridge
  delete_entry id now bridge = elim (edited id bridge) [
    | err e ↦ (err e, bridge)
    | ok found ↦
        let (done, vault') = V.delete_entry found.0 now found.1 in
        (map_err in_vault done, record bridge { vault = some vault' })
  ]
