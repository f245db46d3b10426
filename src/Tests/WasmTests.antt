-- ===== src/Tests/WasmTests.antt =====
-- The tests of crates/vault-wasm/src/wasm.rs at concrete inputs.
use package.pocket_vault.Base.{
  ℕ, ◌*◌, ◌^◌, ◌≤◌, ◌≡◌, ◌↔◌, refl, true, false, String, none, some, ok, err, arith, from_utf8,
}
use package.pocket_vault.Model.{from_config, validate_kdf, aad_byte}
use package.pocket_vault.Crypto.{
  random_array, derive_kek, wrap_dek, encrypt, encrypt_slot_payload, vault_slot_aad, push_aad_field,
  wrapped_dek_aad,
}
use package.pocket_vault.Vault.{
  create_vault, validate_new_master_password, serialize_container, fresh_kek,
}
use package.pocket_vault.Bridge.{create}
use package.pocket_vault.Wasm.Decimal.{digits, decimal, read_digits, parse_u64}
use package.pocket_vault.Wasm.Timestamp.{F64, finite, parse_timestamp, parse_timestamp_iff}
use package.pocket_vault.Wasm.Bundles.{
  WasmCreateBundle, WasmOpenBundle, metadata_json, created_slot_json, created_pointer_json,
  take_created_session, repaired_pointer_json, take_opened_session,
}
use package.pocket_vault.Wasm.Session.{create_session, open_stored}
use package.pocket_vault.Wasm.Reopen.{create_session-open_stored}
use package.pocket_vault.Tests.Toy.{toy, toy-PlatformLaws}
use package.pocket_vault.Tests.Scene.{value_or}

-- 1600 / 2 ^ 4, which is the number 100.
abbrev now : F64
now = finite false 1600 4

accepts_now : parse_timestamp now ≡ ok 100
unfolding parse_timestamp parse_u64 read_digits decimal digits
accepts_now = refl

-- Half of a millisecond, and the number after the largest exact one.
refuses_half : parse_timestamp (finite false 3 1) ≡ err "invalid_timestamp"
unfolding parse_timestamp
refuses_half = refl

refuses_large : parse_timestamp (finite false 9007199254740992 0) ≡ err "invalid_timestamp"
unfolding parse_timestamp
refuses_large = refl

refuses_negative_zero : parse_timestamp (finite true 0 0) ≡ err "invalid_timestamp"
unfolding parse_timestamp parse_u64 read_digits decimal digits
refuses_negative_zero = refl

parse_timestamp_iff_example :
    (parse_timestamp now ≡ ok 100)
    ↔ ((m : ℕ) × (k : ℕ) × (now ≡ finite false m k) × (m ≡ 100 * 2 ^ k) × (100 ≤ 9007199254740991))
parse_timestamp_iff_example = parse_timestamp_iff now 100

abbrev phrase : String
phrase = "follow the white rabbit home"

abbrev no_bundle : WasmCreateBundle
no_bundle = record { inner = none }

unfoldable bundle : WasmCreateBundle
unfolding create_session create create_vault validate_new_master_password from_utf8 random_array
    fresh_kek validate_kdf from_config derive_kek wrap_dek encrypt serialize_container
    encrypt_slot_payload parse_timestamp parse_u64 read_digits decimal digits vault_slot_aad
    push_aad_field wrapped_dek_aad aad_byte
bundle = value_or (create_session toy phrase now 0).0 no_bundle

bundle_runs : create_session toy phrase now 0 ≡ (ok bundle, 5)
unfolding bundle
bundle_runs = refl

abbrev meta_text : String
meta_text = value_or (metadata_json bundle) ""

abbrev slot_text : String
slot_text = value_or (created_slot_json bundle) ""

abbrev pointer_text : String
pointer_text = value_or (created_pointer_json bundle) ""

texts :
    (metadata_json bundle ≡ ok meta_text)
    × (created_slot_json bundle ≡ ok slot_text)
    × (created_pointer_json bundle ≡ ok pointer_text)
unfolding bundle metadata_json created_slot_json created_pointer_json
texts = (refl, refl, refl)

create_session-open_stored_example :
    (opened : WasmOpenBundle) × (open_stored toy phrase
        (some meta_text)
        (some slot_text)
        none
        (some pointer_text)
      ≡ ok opened)
    × (repaired_pointer_json opened ≡ none)
    × (take_opened_session opened ≡ take_created_session bundle)
unfolding bundle metadata_json created_slot_json created_pointer_json
create_session-open_stored_example =
    create_session-open_stored toy toy-PlatformLaws phrase now 0 5 bundle meta_text slot_text
      pointer_text bundle_runs texts.0 texts.1 texts.2 (omega arith) (omega arith) (omega arith)
