-- ===== src/Wasm/Bundles.antt =====
-- crates/vault-wasm/src/wasm.rs: the bundles that JavaScript receives. A JsValue that the code
-- makes is a text; `WasmSaveBundle` and `WasmVaultSession` are the values that they wrap.
use package.pocket_vault.Base.{String, Option, none, some, Result, ok, ok_or, ◌>>=◌}
use package.pocket_vault.Bridge.{VaultBridge, CreateBundle, OpenBundle, SaveBundle}

-- `WasmCreateBundle`
pub record WasmCreateBundle : Type 0 where
  pub inner : Option CreateBundle

-- `WasmOpenBundle`
pub record WasmOpenBundle : Type 0 where
  pub inner : Option OpenBundle

-- `WasmCreateBundle::new` and `WasmOpenBundle::new`
abbrev pub new_create_bundle : CreateBundle → WasmCreateBundle
new_create_bundle bundle = record { inner = some bundle }

abbrev pub new_open_bundle : OpenBundle → WasmOpenBundle
new_open_bundle bundle = record { inner = some bundle }

-- `WasmCreateBundle::inner`
abbrev pub create_bundle : WasmCreateBundle → Result String CreateBundle
create_bundle bundle = ok_or bundle.inner "bundle_consumed"

-- The getters of `WasmCreateBundle`.
unfoldable pub metadata_json : WasmCreateBundle → Result String String
metadata_json bundle = create_bundle bundle >>= λ inner. ok inner.metadata_json

unfoldable pub created_slot_key : WasmCreateBundle → Result String String
created_slot_key bundle = create_bundle bundle >>= λ inner. ok inner.slot_name

unfoldable pub created_slot_json : WasmCreateBundle → Result String String
created_slot_json bundle = create_bundle bundle >>= λ inner. ok inner.slot_json

unfoldable pub created_pointer_json : WasmCreateBundle → Result String String
created_pointer_json bundle = create_bundle bundle >>= λ inner. ok inner.active_pointer_json

-- `WasmCreateBundle::take_session`, which consumes the bundle.
unfoldable pub take_created_session : WasmCreateBundle → Result String VaultBridge
take_created_session bundle = ok_or bundle.inner "bundle_consumed" >>= λ inner. ok inner.session

-- `repaired_pointer_json`
unfoldable pub repaired_pointer_json : WasmOpenBundle → Option String
repaired_pointer_json bundle = elim bundle.inner [
  | none ↦ none
  | some inner ↦ inner.repaired_pointer_json
]

-- `WasmOpenBundle::take_session`, which consumes the bundle.
unfoldable pub take_opened_session : WasmOpenBundle → Result String VaultBridge
take_opened_session bundle = ok_or bundle.inner "bundle_consumed" >>= λ inner. ok inner.session

-- The getters of `WasmSaveBundle`.
abbrev pub saved_slot_key : SaveBundle → String
saved_slot_key bundle = bundle.slot_name

abbrev pub saved_slot_json : SaveBundle → String
saved_slot_json bundle = bundle.slot_json

abbrev pub saved_pointer_json : SaveBundle → String
saved_pointer_json bundle = bundle.active_pointer_json
