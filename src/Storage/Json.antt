-- ===== src/Storage/Json.antt =====
-- crates/vault-core/src/storage.rs: reading and writing JSON under a key.
use package.pocket_vault.Base.{
  ℕ, String, len, leb, Option, none, some, ◌==◌, string_eq, Result, ok, ok_or, map_ok, guard,
}
use package.pocket_vault.Base as B
use package.pocket_vault.Base.Exec.{Exec, lift, map_err, ◌>>=◌, ◌>>◌}
use package.pocket_vault.Error.{
  VaultError, storage, vault_too_large, serialization_failed, slot_verification_failed,
  uninitialized,
}
use package.pocket_vault.Platform.{Codec}
use package.pocket_vault.Storage.Adapter.{DeviceStorage}

-- What `read_optional_json` makes of the value under the key.
abbrev pub decode_stored :
    {T : Type 0} → Codec T String → ℕ → Option String → Result VaultError (Option T)
decode_stored codec maximum_bytes none = ok none
decode_stored codec maximum_bytes (some encoded) =
    B.◌>>◌ (guard (leb (len encoded) maximum_bytes) vault_too_large)
      (map_ok some (ok_or (codec.decode encoded) serialization_failed))

-- The bytes that `write_json_verified` is about to write.
abbrev pub encode_bounded : {T : Type 0} → Codec T String → T → ℕ → Result VaultError String
encode_bounded codec value maximum_bytes =
    B.◌>>=◌ (ok_or (codec.encode value) serialization_failed)
      λ encoded. B.◌>>◌ (guard (leb (len encoded) maximum_bytes) vault_too_large) (ok encoded)

module _ {S : Type 0} (store : DeviceStorage S) {T : Type 0} (codec : Codec T String) where
  -- `write_json_verified`
  unfoldable pub write_json_verified : String → T → ℕ → Exec S VaultError (Unit {0})
  write_json_verified key value maximum_bytes = do
    encoded ← lift (encode_bounded codec value maximum_bytes)
    map_err storage (store.set key encoded)
    found ← map_err storage (store.get key)
    stored ← lift (ok_or found slot_verification_failed)
    lift (guard (stored == encoded) slot_verification_failed)

  -- `read_optional_json`
  unfoldable pub read_optional_json : String → ℕ → Exec S VaultError (Option T)
  read_optional_json key maximum_bytes = do
    found ← map_err storage (store.get key)
    lift (decode_stored codec maximum_bytes found)

  -- `read_required_json`
  unfoldable pub read_required_json : String → ℕ → Exec S VaultError T
  read_required_json key maximum_bytes = do
    found ← read_optional_json key maximum_bytes
    lift (ok_or found uninitialized)
