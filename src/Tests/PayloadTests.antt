-- ===== src/Tests/PayloadTests.antt =====
-- The bridge's payloads of one entry.
use package.pocket_vault.Base.{◌≡◌, refl, inl, some, ok, ok_or}
use package.pocket_vault.Model.{VaultEntry}
use package.pocket_vault.Bridge.{serialization}
use package.pocket_vault.Bridge.Entries.{
  summary_of, details_of, get_entry_json, get_entry_details_json, get_entry_secret,
}
use package.pocket_vault.Bridge.Listing.{listed_entry_is_found}
use package.pocket_vault.Serde.Fields.{◌>>=◌}
use package.pocket_vault.Serde.Contents.{write_entry, read_entry}
use package.pocket_vault.Encoding.{encode_base64url}
use package.pocket_vault.Serde.Keys.{write_entry_id}
use package.pocket_vault.Serde.RoundTrip.{are_bytes-All}
use package.pocket_vault.Serde.Codecs.{JsonText}
use package.pocket_vault.Serde.Payloads.{payloads_of, get_entry_json-read_entry}
use package.pocket_vault.Tests.ToySerde.{toy_serde, toy_serde-SerdeLaws}
use package.pocket_vault.Tests.ToyBase64.{toy_base64, toy_base64-Base64Laws}
use package.pocket_vault.Tests.ToyJson.{
  one_value, one_value-JsonTextLaws, same_at, same_value, same_elements, same_members,
  true_or_false,
}
use package.pocket_vault.Tests.Scene.{created, mail, mail_id, session, session-IsSound}
use package.pocket_vault.Tests.BridgeTests.{bridge}
use package.pocket_vault.Vault.EntryMap.{new_entry}
use package.pocket_vault.Base.{String}

-- The entry of the session, and an engine for it.
abbrev kept : VaultEntry
kept = new_entry created.unlocked mail_id mail 200

abbrev engine : JsonText String
engine = one_value (write_entry toy_base64 kept)

listed_entry_is_found_example :
    (get_entry_secret toy_base64 (summary_of toy_base64 kept).id bridge ≡ ok kept.secret)
    × (get_entry_details_json toy_base64
          (payloads_of toy_base64 engine)
          (summary_of toy_base64 kept).id
          bridge
        ≡ ok_or
            ((payloads_of toy_base64 engine).details_json (details_of toy_base64 kept))
            serialization)
    × (get_entry_json toy_base64
          (payloads_of toy_base64 engine)
          (summary_of toy_base64 kept).id
          bridge
        ≡ ok_or ((payloads_of toy_base64 engine).entry_json kept) serialization)
unfolding session
listed_entry_is_found_example =
    listed_entry_is_found toy_base64 toy_base64-Base64Laws (payloads_of toy_base64 engine) bridge
      session kept refl session-IsSound.distinct (inl refl) refl (are_bytes-All mail_id.bytes refl)

writes_known : (payloads_of toy_base64 engine).entry_json kept ≡ some "known"
unfolding one_value write_entry same_at same_value same_elements same_members true_or_false created
    write_entry_id encode_base64url
writes_known = refl

get_entry_json-read_entry_example :
    (engine.read "known" >>= read_entry toy_serde toy_base64) ≡ some kept
unfolding session
get_entry_json-read_entry_example =
    get_entry_json-read_entry toy_base64 engine toy_serde toy_serde-SerdeLaws toy_base64-Base64Laws
      (one_value-JsonTextLaws (write_entry toy_base64 kept)) bridge session kept "known" refl
      session-IsSound.distinct (inl refl) refl (are_bytes-All mail_id.bytes refl)
      (rw writes_known at listed_entry_is_found_example.2)
