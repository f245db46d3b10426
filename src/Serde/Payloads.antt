-- ===== src/Serde/Payloads.antt =====
-- The derived `Serialize` of EntrySummary and EntryDetails, crates/vault-wasm/src/bridge.rs, and
-- the texts that the bridge makes of entries.
use package.pocket_vault.Base.{
  ◌≡◌, ◌<◌, String, List, [], ◌∷◌, Elem, All, length, ok, Option, none, some, arith, if◌then◌else◌,
}
use package.pocket_vault.Model.{VaultEntry}
use package.pocket_vault.Model.Spec.{DistinctIds}
use package.pocket_vault.Encoding.{Base64, Base64Laws}
use package.pocket_vault.Vault.{UnlockedVault}
use package.pocket_vault.Bridge.{VaultBridge}
use package.pocket_vault.Bridge.Entries.{
  EntrySummary, EntryDetails, Payloads, summary_of, get_entry_json,
}
use package.pocket_vault.Bridge.Listing.{listed_entry_is_found}
use package.pocket_vault.Serde.Fields.{
  Value, null, number, text, array, object, Elements, no_elements, more_elements, Members,
  no_members, member, Serde, SerdeLaws, ◌>>=◌,
}
use package.pocket_vault.Serde.Contents.{write_entry, read_entry}
use package.pocket_vault.Serde.ContentsRoundTrip.{entry_fits, read-write_entry}
use package.pocket_vault.Serde.Codecs.{JsonText, JsonTextLaws, codec_of-CodecLaws}

-- `EntrySummary`
abbrev pub summary_members : EntrySummary → Members
summary_members x = member "id" (text x.id) (
    member "title" (text x.title) (
      member "createdAt" (number x.created_at)
        (member "updatedAt" (number x.updated_at) no_members)))

unfoldable pub write_summary : EntrySummary → Value
write_summary x = object (summary_members x)

-- `Vec<EntrySummary>`
unfoldable pub write_summaries : List EntrySummary → Elements
write_summaries [] = no_elements
write_summaries (x ∷ xs) = more_elements (write_summary x) (write_summaries xs)

-- An `Option<&str>` that no attribute skips
abbrev pub write_nullable : Option String → Value
write_nullable none = null
write_nullable (some s) = text s

-- `EntryDetails`
abbrev pub details_members : EntryDetails → Members
details_members x = member "id" (text x.id) (
    member "title" (text x.title) (
      member "description" (write_nullable x.description) (
        member "createdAt" (number x.created_at)
          (member "updatedAt" (number x.updated_at) no_members))))

unfoldable pub write_details : EntryDetails → Value
write_details x = object (details_members x)

module _ (base64 : Base64) (json : JsonText String) where
  -- The texts of the bridge's payloads.
  abbrev pub payloads_of : Payloads
  payloads_of = record {
    summaries_json = λ xs. json.write (array (write_summaries xs));
    entry_json = λ x. if entry_fits x then json.write (write_entry base64 x) else none;
    details_json = λ x. json.write (write_details x);
  }

  module _ (serde : Serde) (derived : SerdeLaws serde) (laws : Base64Laws base64)
      (json_laws : JsonTextLaws json) where
    -- In a session whose entries have distinct identifiers, the text that `get_entry_json` returns at
    -- the identifier that the list shows for an entry, which is 16 bytes in its text, is read back by
    -- the type's own `Deserialize` as that entry.
    pub get_entry_json-read_entry :
        (bridge : VaultBridge) (vault : UnlockedVault) (e : VaultEntry) (t : String)
        → bridge.vault ≡ some vault
        → DistinctIds vault.container.entries
        → Elem e vault.container.entries
        → length e.id.bytes ≡ 16
        → All (λ b. b < 256) e.id.bytes
        → get_entry_json base64 payloads_of (summary_of base64 e).id bridge ≡ ok t
        → (json.read t >>= read_entry serde base64) ≡ some e
    get_entry_json-read_entry bridge vault e t present distinct listed size bytes h =
        let codec =
          codec_of-CodecLaws json entry_fits (write_entry base64) (read_entry serde base64)
            json_laws (read-write_entry serde derived base64 laws) in
        let (_, _, found) =
          listed_entry_is_found base64 laws payloads_of bridge vault e present distinct listed size
            bytes in
        codec.decode-encode e t (ground (arith, h, found))
