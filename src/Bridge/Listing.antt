-- ===== src/Bridge/Listing.antt =====
-- crates/vault-wasm/src/bridge.rs: from the listed entries to the single ones.
use package.pocket_vault.Base.{
  ◌≡◌, ◌≢◌, refl, List, [], ◌∷◌, Elem, All, length, find, some, ok, ok_or, ◌<◌, arith, ==_iff, inl,
  inr,
}
use package.pocket_vault.Model.{EntryId, entry_id_eq, VaultEntry}
use package.pocket_vault.Model.Spec.{Absent, DistinctIds}
use package.pocket_vault.Encoding.{Base64, Base64Laws}
use package.pocket_vault.Encoding.RoundTrip.{entry_id_from-to_base64url}
use package.pocket_vault.Vault.{UnlockedVault, has_id}
use package.pocket_vault.Bridge.State.{VaultBridge, serialization}
use package.pocket_vault.Bridge.Entries.{
  Payloads, parse_entry_id, entry, summary_of, details_of, get_entry_json, get_entry_details_json,
  get_entry_secret,
}

Absent-Elem :
    (id : EntryId) (e : VaultEntry) (entries : List VaultEntry)
    → Absent id entries
    → Elem e entries
    → e.id ≢ id
Absent-Elem id e [] a listed = absurd listed
Absent-Elem id e (x ∷ entries) a (inl same) = rw same a.0
Absent-Elem id e (x ∷ entries) a (inr later) = Absent-Elem id e entries a.1 later

find-Elem :
    (e : VaultEntry) (entries : List VaultEntry)
    → DistinctIds entries
    → Elem e entries
    → find (has_id e.id) entries ≡ some e
find-Elem e [] d listed = absurd listed
find-Elem e (x ∷ entries) d (inl same) = rw same (ground (arith, ==_iff x.id x.id))
find-Elem e (x ∷ entries) d (inr later) =
    ground
      (arith, find-Elem e entries d.1 later, Absent-Elem x.id e entries d.0 later, ==_iff x.id e.id)

module _ (base64 : Base64) (laws : Base64Laws base64) where
  -- Of a session with distinct identifiers, each entry is found under the identifier that the list
  -- shows for it.
  pub entry-summary_of :
      (bridge : VaultBridge) (vault : UnlockedVault) (e : VaultEntry)
      → bridge.vault ≡ some vault
      → DistinctIds vault.container.entries
      → Elem e vault.container.entries
      → length e.id.bytes ≡ 16
      → All (λ b. b < 256) e.id.bytes
      → entry base64 (summary_of base64 e).id bridge ≡ ok e
  unfolding entry parse_entry_id
  entry-summary_of bridge vault e present distinct listed size bytes = ground (
    arith,
    present,
    find-Elem e vault.container.entries distinct listed,
    entry_id_from-to_base64url base64 laws e.id size bytes,
  )

  -- In a session whose entries have distinct identifiers, the identifier that the list shows for an
  -- entry, 16 bytes in its text, leads back to that entry: to its secret, and to the payloads of
  -- its details and of the whole entry.
  pub listed_entry_is_found :
      (payloads : Payloads) (bridge : VaultBridge) (vault : UnlockedVault) (e : VaultEntry)
      → bridge.vault ≡ some vault
      → DistinctIds vault.container.entries
      → Elem e vault.container.entries
      → length e.id.bytes ≡ 16
      → All (λ b. b < 256) e.id.bytes
      → (get_entry_secret base64 (summary_of base64 e).id bridge ≡ ok e.secret)
        × (get_entry_details_json base64 payloads (summary_of base64 e).id bridge
            ≡ ok_or (payloads.details_json (details_of base64 e)) serialization)
        × (get_entry_json base64 payloads (summary_of base64 e).id bridge
            ≡ ok_or (payloads.entry_json e) serialization)
  unfolding get_entry_secret get_entry_details_json get_entry_json
  listed_entry_is_found payloads bridge vault e present distinct listed size bytes =
      let found = entry-summary_of bridge vault e present distinct listed size bytes in
      (rw found refl, rw found refl, rw found refl)
