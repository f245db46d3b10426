-- ===== src/Wasm/Session.antt =====
-- crates/vault-wasm/src/wasm.rs: `WasmVaultSession`. The random source is the browser's, as a
-- state; the password is a text, and the bridge is given its bytes.
use mathlib.Core.Option
use package.pocket_vault.Base.{
  ℕ, Bool, String, List, Option, Result, ok, err, map_ok, map_err, as_bytes,
}
use package.pocket_vault.Model.{SlotId, slot_a, slot_b}
use package.pocket_vault.Platform.{Platform}
use package.pocket_vault.Encoding.{Base64}
use package.pocket_vault.Bridge as B
use package.pocket_vault.Bridge.{
  BridgeError, error_code, VaultBridge, SaveBundle, CreateBundle, OpenBundle, StorageSnapshot,
}
use package.pocket_vault.Bridge.Entries as E
use package.pocket_vault.Wasm.Decimal.{decimal}
use package.pocket_vault.Wasm.Timestamp.{F64, parse_timestamp}
use package.pocket_vault.Wasm.Bundles.{
  WasmCreateBundle, WasmOpenBundle, new_create_bundle, new_open_bundle,
}

-- `to_js_error`, on a call's result.
abbrev pub to_js_error : {A : Type 0} → Result BridgeError A → Result String A
to_js_error = map_err error_code

-- A call that takes the time, and is not made where the time is refused.
abbrev pub at_time : {A S : Type 0} → F64 → S → (ℕ → Result BridgeError A × S) → Result String A × S
at_time now state call = elim (parse_timestamp now) [
  | err e ↦ (err e, state)
  | ok time ↦ let (result, state') = call time in (to_js_error result, state')
]

module _ {R : Type 0} (platform : Platform R) where
  -- `create`
  unfoldable pub create_session : String → F64 → R → Result String WasmCreateBundle × R
  create_session master_password now rng =
      let (made, rng') =
        at_time now rng λ time. B.create platform (as_bytes master_password) time rng in
      (map_ok new_create_bundle made, rng')

  -- `open`
  unfoldable pub open_stored :
      String
      → Option String
      → Option String
      → Option String
      → Option String
      → Result String WasmOpenBundle
  open_stored master_password metadata_json slot_a_json slot_b_json active_pointer_json =
      to_js_error (
        map_ok new_open_bundle (
          B.open_session platform (as_bytes master_password) (record {
            metadata_json = metadata_json;
            slot_a_json = slot_a_json;
            slot_b_json = slot_b_json;
            active_pointer_json = active_pointer_json;
          })))

-- `is_locked`
unfoldable pub is_locked : VaultBridge → Bool
is_locked session = B.is_locked session

-- `generation`, as a text of decimal digits.
unfoldable pub generation_text : VaultBridge → Option (List ℕ)
generation_text session = Option.map decimal (B.generation session)

-- `persisted_slot`
abbrev pub slot_letter : SlotId → String
slot_letter slot_a = "a"
slot_letter slot_b = "b"

unfoldable pub persisted_slot_letter : VaultBridge → Option String
persisted_slot_letter session = Option.map slot_letter (B.persisted_slot session)

module _ {R : Type 0} (platform : Platform R) (base64 : Base64) (payloads : E.Payloads) where
  -- `list_entries_json`, `get_entry_json`, `get_entry_details_json` and `get_entry_secret`
  unfoldable pub list_entries_json : VaultBridge → Result String String
  list_entries_json session = to_js_error (E.list_entries_json base64 payloads session)

  unfoldable pub get_entry_json : String → VaultBridge → Result String String
  get_entry_json id session = to_js_error (E.get_entry_json base64 payloads id session)

  unfoldable pub get_entry_details_json : String → VaultBridge → Result String String
  get_entry_details_json id session =
      to_js_error (E.get_entry_details_json base64 payloads id session)

  unfoldable pub get_entry_secret : String → VaultBridge → Result String String
  get_entry_secret id session = to_js_error (E.get_entry_secret base64 id session)

  -- `add_entry`
  unfoldable pub add_entry :
      String
      → String
      → Option String
      → F64
      → VaultBridge
      → R
      → Result String String × VaultBridge × R
  add_entry title secret description now session rng = elim (parse_timestamp now) [
    | err e ↦ (err e, session, rng)
    | ok time ↦
        let (added, session', rng') =
          E.add_entry base64 platform title secret description time session rng in
        (to_js_error added, session', rng')
  ]

  -- `update_entry`
  unfoldable pub update_entry :
      String
      → String
      → String
      → Option String
      → F64
      → VaultBridge
      → Result String (Unit {0}) × VaultBridge
  update_entry id title secret description now session =
      at_time now session λ time. E.update_entry base64 id title secret description time session

  -- `delete_entry`
  unfoldable pub delete_entry : String → F64 → VaultBridge → Result String (Unit {0}) × VaultBridge
  delete_entry id now session = at_time now session λ time. E.delete_entry base64 id time session

  -- `prepare_save`
  unfoldable pub prepare_save : VaultBridge → R → Result String SaveBundle × VaultBridge × R
  prepare_save session rng =
      let (prepared, session', rng') = B.prepare_save platform session rng in
      (to_js_error prepared, session', rng')

  -- `verify_pending_slot` and `commit_pending_save`
  unfoldable pub verify_pending_slot : String → VaultBridge → Result String (Unit {0}) × VaultBridge
  verify_pending_slot readback_json session =
      let (done, session') = B.verify_pending_slot platform readback_json session in
      (to_js_error done, session')

  unfoldable pub commit_pending_save : String → VaultBridge → Result String (Unit {0}) × VaultBridge
  commit_pending_save readback_json session =
      let (done, session') = B.commit_pending_save platform readback_json session in
      (to_js_error done, session')

  -- `prepare_password_change` and `commit_password_change`
  unfoldable pub prepare_password_change :
      String → String → VaultBridge → R → Result String String × VaultBridge × R
  prepare_password_change current new session rng =
      let (prepared, session', rng') =
        B.prepare_password_change platform (as_bytes current) (as_bytes new) session rng in
      (to_js_error prepared, session', rng')

  unfoldable pub commit_password_change :
      String → VaultBridge → Result String (Unit {0}) × VaultBridge
  commit_password_change readback_json session =
      let (done, session') = B.commit_password_change platform readback_json session in
      (to_js_error done, session')

-- `cancel_pending_save`, `cancel_password_change` and `lock`
unfoldable pub cancel_pending_save : VaultBridge → VaultBridge
cancel_pending_save session = B.cancel_pending_save session

unfoldable pub cancel_password_change : VaultBridge → VaultBridge
cancel_password_change session = B.cancel_password_change session

unfoldable pub lock : VaultBridge → VaultBridge
lock session = B.lock session
