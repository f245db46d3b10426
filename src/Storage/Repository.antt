-- ===== src/Storage/Repository.antt =====
-- crates/vault-core/src/storage.rs: `TwoSlotRepository`. A repository is its adapter's state.
use package.pocket_vault.Base.{
  ℕ, Bytes, String, List, [], ◌∷◌, ◌++◌, Bool, true, false, not, ◌&&◌, Option, none, some, ◌==◌,
  nat_eq, option_eq, Result, ok, err, ok_or, guard, if◌then◌else◌,
}
use package.pocket_vault.Base as B
use package.pocket_vault.Base.Exec.{Exec, pure, lift, map_err, ◌>>=◌, ◌>>◌}
use package.pocket_vault.Error.{
  VaultError, storage, invalid_slot, already_initialized, slot_verification_failed,
  wrong_password_or_corrupted_vault,
}
use package.pocket_vault.Model.{
  SlotId, slot_a, slot_b, slot_id_eq, other, VaultId, VaultMetaV1, validate_meta,
  EncryptedVaultSlotV1, validate_slot, ActiveSlotV1, active_slot_eq, validate_pointer,
  format_version, max_metadata_json_bytes, max_slot_json_bytes,
}
use package.pocket_vault.Platform.{Platform}
use package.pocket_vault.Crypto.{derive_kek, unwrap_dek}
use package.pocket_vault.Vault.{
  UnlockedVault, CreatedVault, next_generation, encrypt_for_slot_at_generation, verify_next_slot,
  commit_verified_slot,
}
use package.pocket_vault.Storage.Adapter.{
  DeviceStorage, meta_key, slot_a_key, slot_b_key, active_slot_key, slot_key,
  max_active_pointer_bytes,
}
use package.pocket_vault.Storage.Json.{write_json_verified, read_optional_json, read_required_json}
use package.pocket_vault.Storage.Select.{
  Candidate, sort_by, candidate_order, usable_pointer, usable_slot, authenticated,
}

-- `OpenedVault`
pub record OpenedVault : Type 0 where
  pub vault : UnlockedVault
  pub active_pointer_repaired : Bool

abbrev pub pointer_to : EncryptedVaultSlotV1 → ActiveSlotV1
pointer_to slot = record {
  version = format_version;
  slot = slot.slot;
  generation = slot.generation;
}

abbrev pub is_empty : List EncryptedVaultSlotV1 → Bool
is_empty [] = true
is_empty (_ ∷ _) = false

abbrev pub is_some : Option String → Bool
is_some none = false
is_some (some _) = true

-- `candidates.into_iter().next()`
abbrev pub first : List Candidate → Option Candidate
first [] = none
first (candidate ∷ _) = some candidate

-- A call whose failure is a value: `let Ok(...) = ... else`, `.ok()`.
abbrev pub attempt : {S E A : Type 0} → Exec S E A → Exec S E (Result E A)
attempt m s = let (r, s') = m s in (ok r, s')

module _ {R : Type 0} (platform : Platform R) where
  -- The part of `open` between reading the slots and repairing the pointer.
  unfoldable pub select :
      Bytes
      → VaultMetaV1
      → Option ActiveSlotV1
      → List EncryptedVaultSlotV1
      → Result VaultError (Candidate × Bytes)
  select master_password metadata pointer encrypted =
      B.◌>>◌ (guard (not (is_empty encrypted)) wrong_password_or_corrupted_vault) (
        B.◌>>=◌ (derive_kek platform master_password metadata.vault_id metadata.kdf) λ kek.
          B.◌>>=◌ (unwrap_dek platform kek metadata.wrapped_dek metadata.vault_id) λ dek.
            B.◌>>=◌
              (ok_or
                (first (
                  sort_by (candidate_order pointer)
                    (authenticated platform dek metadata.created_at encrypted)))
                wrong_password_or_corrupted_vault)
              λ selected. ok (selected, dek))

module _ {R S : Type 0} (platform : Platform R) (store : DeviceStorage S) where
  open platform use {meta_json, slot_json, pointer_json}

  -- `initialize`
  unfoldable pub initialize : CreatedVault → Exec S VaultError (Unit {0})
  initialize created = do
    lift (validate_meta created.metadata)
    lift (validate_slot created.initial_slot created.metadata.vault_id)
    lift (validate_pointer created.active_slot)
    lift (
        guard
          (created.initial_slot.slot == created.active_slot.slot
            && created.initial_slot.generation == created.active_slot.generation)
          (invalid_slot "initial slot and active pointer do not match"))
    existing ← map_err storage (store.get meta_key)
    lift (guard (not (is_some existing)) already_initialized)
    write_json_verified store slot_json (slot_key created.initial_slot.slot) created.initial_slot
        max_slot_json_bytes
    write_json_verified store meta_json meta_key created.metadata max_metadata_json_bytes
    write_json_verified store pointer_json active_slot_key created.active_slot
        max_active_pointer_bytes

  -- The loop of `open` over the slot keys.
  unfoldable pub read_candidates :
      VaultId → List (SlotId × String) → Exec S VaultError (List EncryptedVaultSlotV1)
  read_candidates vault_id [] = pure []
  read_candidates vault_id ((expected, key) ∷ keys) = do
    found ← attempt (read_optional_json store slot_json key max_slot_json_bytes)
    more ← read_candidates vault_id keys
    pure (usable_slot expected vault_id found ++ more)

  -- `open`
  unfoldable pub open_vault : Bytes → Exec S VaultError OpenedVault
  open_vault master_password = do
    metadata ← read_required_json store meta_json meta_key max_metadata_json_bytes
    lift (validate_meta metadata)
    found ← attempt (read_optional_json store pointer_json active_slot_key max_active_pointer_bytes)
    let pointer = usable_pointer found
    encrypted ← read_candidates metadata.vault_id ((slot_a, slot_a_key) ∷ (slot_b, slot_b_key) ∷ [])
    chosen ← lift (select platform master_password metadata pointer encrypted)
    let selected_pointer = pointer_to chosen.0.0
    let repaired = not (pointer == some selected_pointer)
    if repaired
        then write_json_verified store pointer_json active_slot_key selected_pointer
            max_active_pointer_bytes
        else pure tt
    pure (record {
      vault = record { container = chosen.0.1; dek = chosen.1; persisted_slot = chosen.0.0.slot };
      active_pointer_repaired = repaired;
    })

  -- The storage calls of `save`: the slot is written, read back, verified, and then pointed to.
  unfoldable pub persist :
      UnlockedVault → SlotId → ℕ → EncryptedVaultSlotV1 → Exec S VaultError EncryptedVaultSlotV1
  persist vault target next slot = do
    write_json_verified store slot_json (slot_key target) slot max_slot_json_bytes
    stored ← read_required_json store slot_json (slot_key target) max_slot_json_bytes
    lift (validate_slot stored vault.container.vault_id)
    lift (verify_next_slot platform vault stored)
    write_json_verified store pointer_json active_slot_key
        (record { version = format_version; slot = target; generation = next })
        max_active_pointer_bytes
    pure stored

  -- `save`: the result, and the session, the random source and the storage after it.
  unfoldable pub save : UnlockedVault → R → S → Result VaultError (Unit {0}) × UnlockedVault × R × S
  save vault rng s =
      let target = other vault.persisted_slot in
      elim (next_generation vault) [
        | err e ↦ (err e, vault, rng, s)
        | ok next ↦
            let (sealed, rng') = encrypt_for_slot_at_generation platform vault target next rng in
            elim sealed [
              | err e ↦ (err e, vault, rng', s)
              | ok slot ↦
                  let (persisted, s') = persist vault target next slot s in
                  elim persisted [
                    | err e ↦ (err e, vault, rng', s')
                    | ok stored ↦
                        let (committed, vault') = commit_verified_slot platform stored vault in
                        (committed, vault', rng', s')
                  ]
            ]
      ]

-- The loop of `clear_device_storage`.
unfoldable pub clear_keys :
    {S : Type 0} → DeviceStorage S → List String → Exec S VaultError (Unit {0})
clear_keys store [] = pure tt
clear_keys store (key ∷ keys) = do
  map_err storage (store.remove key)
  left ← map_err storage (store.get key)
  lift (guard (not (is_some left)) slot_verification_failed)
  clear_keys store keys

-- `clear_device_storage`
unfoldable pub clear_device_storage : {S : Type 0} → DeviceStorage S → Exec S VaultError (Unit {0})
clear_device_storage store =
    clear_keys store (meta_key ∷ slot_a_key ∷ slot_b_key ∷ active_slot_key ∷ [])
