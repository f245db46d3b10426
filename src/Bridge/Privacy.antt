-- ===== src/Bridge/Privacy.antt =====
-- crates/vault-wasm/src/bridge.rs: what the payloads for the browser depend on.
use mathlib.Core.Option
use package.pocket_vault.Base.{
  ◌≡◌, refl, String, List, [], ◌∷◌, map, find, none, arith, Option-cases, Result-cases, inl, inr,
}
use package.pocket_vault.Model.{EntryId, VaultEntry}
use package.pocket_vault.Encoding.{Base64}
use package.pocket_vault.Vault.{UnlockedVault, has_id}
use package.pocket_vault.Bridge.State.{VaultBridge}
use package.pocket_vault.Bridge.Entries.{
  Payloads, parse_entry_id, entry, summary_of, list_entries_json, get_entry_details_json,
}

abbrev pub without_secret : VaultEntry → VaultEntry
without_secret e = record e { secret = "" }

abbrev pub without_text : VaultEntry → VaultEntry
without_text e = record e { secret = ""; description = none }

abbrev pub map_entries : (VaultEntry → VaultEntry) → UnlockedVault → UnlockedVault
map_entries f vault = record vault {
  container = record vault.container { entries = map f vault.container.entries };
}

-- The bridge with every entry of its session changed.
abbrev pub with_entries : (VaultEntry → VaultEntry) → VaultBridge → VaultBridge
with_entries f bridge = record bridge { vault = Option.map (map_entries f) bridge.vault }

module _ (base64 : Base64) where
  map-summary_of :
      (entries : List VaultEntry)
      → map (summary_of base64) (map without_text entries) ≡ map (summary_of base64) entries
  map-summary_of [] = refl
  map-summary_of (e ∷ entries) = cc (map-summary_of entries)

  find-without_secret :
      (id : EntryId) (entries : List VaultEntry)
      → find (has_id id) (map without_secret entries)
        ≡ Option.map without_secret (find (has_id id) entries)
  find-without_secret id [] = refl
  find-without_secret id (e ∷ entries) = ground (arith, find-without_secret id entries)

  -- The list of entries is the same whatever their secrets and descriptions are, and the details of
  -- an entry are the same whatever the secrets are; also where a call fails.
  pub payloads_omit_secrets :
      (payloads : Payloads) (bridge : VaultBridge) (id : String)
      → (list_entries_json base64 payloads bridge
          ≡ list_entries_json base64 payloads (with_entries without_text bridge))
        × (get_entry_details_json base64 payloads id bridge
            ≡ get_entry_details_json base64 payloads id (with_entries without_secret bridge))
  unfolding list_entries_json get_entry_details_json entry
  payloads_omit_secrets payloads bridge id = elim (Option-cases bridge.vault) [
    | inl closed ↦ (ground (arith, closed), ground (arith, closed))
    | inr (vault, present) ↦ (
      ground (arith, present, map-summary_of vault.container.entries),
      elim (Result-cases (parse_entry_id base64 id)) [
        | inr (e, refused) ↦ ground (arith, refused)
        | inl (entry_id, parsed) ↦
            ground (arith, present, parsed, find-without_secret entry_id vault.container.entries)
      ],
    )
  ]
