-- ===== src/Storage/Reference.antt =====
-- crates/vault-core/src/storage.rs: `open` against a reference that reads a fixed view of the
-- storage.
use mathlib.Core.List.{append-nil}
use package.pocket_vault.Base.{
  ℕ, ◌≡◌, String, Bytes, List, [], ◌∷◌, ◌++◌, Bool, true, false, Option, none, some, ok, err,
  Result, ok_or, Result-cases, inl, inr, arith, ◌==◌, option_eq, if◌then◌else◌, ◌>>=◌, ◌>>◌,
}
use package.pocket_vault.Base.Exec as X
use package.pocket_vault.Error.{VaultError, uninitialized}
use package.pocket_vault.Model.{
  slot_a, slot_b, VaultId, validate_meta, EncryptedVaultSlotV1, ActiveSlotV1, active_slot_eq,
}
use package.pocket_vault.Platform.{Platform, Codec}
use package.pocket_vault.Storage.Adapter.{
  DeviceStorage, meta_key, slot_a_key, slot_b_key, active_slot_key,
}
use package.pocket_vault.Storage.Json.{
  decode_stored, read_optional_json, read_required_json, write_json_verified,
}
use package.pocket_vault.Storage.Select.{Candidate, usable_pointer, usable_slot}
use package.pocket_vault.Storage.Repository.{
  OpenedVault, pointer_to, read_candidates, select, open_vault,
}

-- What `open` decides: the pointer that it could use, the slot and container that it selected, and
-- the data key.
pub record Choice : Type 0 where
  pub pointer : Option ActiveSlotV1
  pub chosen : Candidate
  pub dek : Bytes

abbrev pub opened : Choice → Bool → OpenedVault
opened choice repaired = record {
  vault = record {
    container = choice.chosen.1;
    dek = choice.dek;
    persisted_slot = choice.chosen.0.slot;
  };
  active_pointer_repaired = repaired;
}

module _ {R : Type 0} (platform : Platform R) (view : String → Option String) where
  open platform use {meta_json, slot_json, pointer_json}

  -- The slots in the view that belong to the vault and stand under their own key.
  abbrev pub slots_in_view : VaultId → List EncryptedVaultSlotV1
  slots_in_view vault_id =
      usable_slot slot_a vault_id (decode_stored slot_json 5242880 (view slot_a_key))
      ++ usable_slot slot_b vault_id (decode_stored slot_json 5242880 (view slot_b_key))

  unfoldable pub open_view : Bytes → Result VaultError Choice
  open_view master_password = do
    found ← decode_stored meta_json 16384 (view meta_key)
    metadata ← ok_or found uninitialized
    validate_meta metadata
    let pointer = usable_pointer (decode_stored pointer_json 1024 (view active_slot_key))
    let slots = slots_in_view metadata.vault_id
    chosen ← select platform master_password metadata pointer slots
    ok (record { pointer = pointer; chosen = chosen.0; dek = chosen.1 })

module _ {R S : Type 0} (platform : Platform R) (store : DeviceStorage S) where
  open platform use {meta_json, slot_json, pointer_json}

  -- Every read returns what the view shows and leaves the storage as it is.
  abbrev pub Shows : S → (String → Option String) → Type 0
  Shows s view = (k : String) → store.get k s ≡ (ok (view k), s)

  -- The end of `open`: the pointer is rewritten where it does not name the selected slot.
  abbrev pub repair : Choice → X.Exec S VaultError OpenedVault
  repair choice s =
      if choice.pointer == some (pointer_to choice.chosen.0)
      then (ok (opened choice false), s)
      else let (done, s') =
          write_json_verified store pointer_json active_slot_key (pointer_to choice.chosen.0) 1024
            s in
        elim done [ ok _ ↦ (ok (opened choice true), s') | err e ↦ (err e, s') ]

  read_optional_json-Shows :
      {T : Type 0} (codec : Codec T String) (key : String) (limit : ℕ) (s : S)
      (view : String → Option String)
      → Shows s view
      → read_optional_json store codec key limit s ≡ (decode_stored codec limit (view key), s)
  unfolding read_optional_json
  read_optional_json-Shows codec key limit s view shows = ground (arith, shows key)

  read_candidates-Shows :
      (vault_id : VaultId) (s : S) (view : String → Option String)
      → Shows s view
      → read_candidates platform store vault_id ((slot_a, slot_a_key) ∷ (slot_b, slot_b_key) ∷ []) s
        ≡ (ok (slots_in_view platform view vault_id), s)
  unfolding read_candidates
  read_candidates-Shows vault_id s view shows = rw (
    read_optional_json-Shows slot_json slot_a_key 5242880 s view shows,
    read_optional_json-Shows slot_json slot_b_key 5242880 s view shows,
    append-nil,
  )

  -- On a storage whose reads succeed, `open` decides by the reference, whatever its outcome, and
  -- changes the storage only by the repair of the pointer.
  pub open_vault-open_view :
      (master_password : Bytes) (s : S) (view : String → Option String)
      → Shows s view
      → open_vault platform store master_password s
        ≡ elim (open_view platform view master_password) [
          | ok choice ↦ repair choice s
          | err e ↦ (err e, s)
        ]
  unfolding open_vault read_required_json open_view
  open_vault-open_view master_password s view shows =
      let reads_meta = read_optional_json-Shows meta_json meta_key 16384 s view shows in
      let reads_pointer = read_optional_json-Shows pointer_json active_slot_key 1024 s view shows in
      elim (Result-cases (decode_stored meta_json 16384 (view meta_key))) [
        | inr (e, bad) ↦ ground (arith, reads_meta, bad)
        | inl (none, missing) ↦ ground (arith, reads_meta, missing)
        | inl (some metadata, found) ↦ ground (
          arith,
          reads_meta,
          found,
          reads_pointer,
          read_candidates-Shows metadata.vault_id s view shows,
        )
      ]
