-- ===== src/Bridge/Opening.antt =====
-- crates/vault-wasm/src/bridge.rs: creating a session, and opening one from a snapshot of the
-- storage.
use package.pocket_vault.Base.{
  ℕ, Bytes, String, Option, none, some, Result, ok, ok_or, map_err, ◌>>=◌, if◌then◌else◌,
}
use package.pocket_vault.Base.Exec as X
use package.pocket_vault.Base.Exec.{Exec, lift}
use package.pocket_vault.Error.{invalid_metadata}
use package.pocket_vault.Model.{default_config}
use package.pocket_vault.Platform.{Platform}
use package.pocket_vault.Vault.{create_vault}
use package.pocket_vault.Storage.{
  MemoryStorage, memory_storage, empty_memory, insert_raw, raw, open_vault, slot_key, meta_key,
  slot_a_key, slot_b_key, active_slot_key,
}
use package.pocket_vault.Bridge.State.{
  BridgeError, in_vault, serialization, missing_metadata, VaultBridge,
}

-- `StorageSnapshot`
pub record StorageSnapshot : Type 0 where
  pub metadata_json : Option String
  pub slot_a_json : Option String
  pub slot_b_json : Option String
  pub active_pointer_json : Option String

-- `CreateBundle`
pub record CreateBundle : Type 0 where
  pub session : VaultBridge
  pub metadata_json : String
  pub slot_name : String
  pub slot_json : String
  pub active_pointer_json : String

-- `OpenBundle`
pub record OpenBundle : Type 0 where
  pub session : VaultBridge
  pub repaired_pointer_json : Option String

-- `insert_optional`
unfoldable pub insert_optional : String → Option String → MemoryStorage → MemoryStorage
insert_optional key none memory = memory
insert_optional key (some value) memory = insert_raw key value memory

-- The memory that `open` fills.
unfoldable pub load : StorageSnapshot → MemoryStorage
load snapshot = insert_optional active_slot_key snapshot.active_pointer_json (
    insert_optional slot_b_key snapshot.slot_b_json (
      insert_optional slot_a_key snapshot.slot_a_json
        (insert_optional meta_key snapshot.metadata_json empty_memory)))

module _ {R : Type 0} (platform : Platform R) where
  open platform use {meta_json, slot_json, pointer_json}

  -- `create`
  unfoldable pub create : Bytes → ℕ → Exec R BridgeError CreateBundle
  create master_password now =
      X.◌>>=◌ (X.map_err in_vault (create_vault platform master_password default_config now))
        λ created. lift (
          ok_or (meta_json.encode created.metadata) serialization >>= λ metadata_text.
          ok_or (slot_json.encode created.initial_slot) serialization >>= λ slot_text.
          ok_or (pointer_json.encode created.active_slot) serialization >>= λ pointer_text.
          ok (record {
            session = record {
              vault = some created.unlocked;
              metadata = some created.metadata;
              pending = none;
              pending_password_change = none;
            };
            metadata_json = metadata_text;
            slot_name = slot_key created.initial_slot.slot;
            slot_json = slot_text;
            active_pointer_json = pointer_text;
          }))

  -- `open`
  unfoldable pub open_session : Bytes → StorageSnapshot → Result BridgeError OpenBundle
  open_session master_password snapshot =
      ok_or snapshot.metadata_json missing_metadata >>= λ metadata_text.
      ok_or (meta_json.decode metadata_text)
        (in_vault (invalid_metadata "metadata JSON is invalid"))
      >>= λ metadata.
          let (opened, memory) =
            open_vault platform memory_storage master_password (load snapshot) in
          map_err in_vault opened >>= λ found. ok (record {
            session = record {
              vault = some found.vault;
              metadata = some metadata;
              pending = none;
              pending_password_change = none;
            };
            repaired_pointer_json =
                if found.active_pointer_repaired then raw memory active_slot_key else none;
          })
