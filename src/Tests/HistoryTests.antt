-- ===== src/Tests/HistoryTests.antt =====
-- A session in the in-memory storage whose save fails at the pointer, that is edited, and that is
-- then opened again.
use package.pocket_vault.Base.{Bytes, ◌≡◌, ◌⊎◌, ◌+◌, refl, arith, true, [], ◌∷◌, Elem, ok, err}
use package.pocket_vault.Error.{VaultError, storage, write_failed}
use package.pocket_vault.Model.{
  SlotId, other, EncryptedVaultSlotV1, VaultContainerV1, VaultMetaV1, validate_container,
  validate_entries, validate_member, validate_entry,
}
use package.pocket_vault.Crypto.{
  decrypt_slot_payload, decrypt, encrypt_slot_payload, encrypt, random_array, unwrap_dek,
}
use package.pocket_vault.Vault.{
  UnlockedVault, at_generation, encrypt_for_slot_at_generation, verify_next_slot, decrypt_candidate,
  decrypt_container, commit_verified_slot, serialize_container,
}
use package.pocket_vault.Vault.Edits.{updating, edit}
use package.pocket_vault.Storage.Best.{Best}
use package.pocket_vault.Storage.Preference.{Ending, open_vault_prefers}
use package.pocket_vault.Storage.Recovery.{SlotIn, MetaIn}
use package.pocket_vault.Storage.{
  MemoryStorage, memory_storage, memory_storage_laws, save, persist, read_required_json,
  read_optional_json, fail_next_set, open_vault, OpenedVault, write_json_verified, pointer_to,
  active_slot_key, read_candidates, select, usable_slot, authenticated, candidate_order,
  usable_pointer,
}
use package.pocket_vault.Storage.Holding.{InStep}
use package.pocket_vault.Storage.Reference.{Shows}
use package.pocket_vault.Storage.History.{begins, edited, failed, reopened, history_recovers}
use package.pocket_vault.Tests.Toy.{toy, toy-PlatformLaws}
use package.pocket_vault.Tests.Scene.{password, created, session, renamed}
use package.pocket_vault.Tests.StorageTests.{stored, failing, session-InStep, view_of}

failing-InStep :
    InStep toy
      (memory_storage_laws.peek failing)
      password
      created.metadata
      session
      created.unlocked.container
unfolding memory_storage_laws failing
failing-InStep = session-InStep

save_fails : (save toy memory_storage session 6 failing).0 ≡ err (storage write_failed)
unfolding stored failing fail_next_set session save encrypt_for_slot_at_generation persist other
    read_required_json read_optional_json verify_next_slot decrypt_candidate decrypt_container
    decrypt_slot_payload decrypt commit_verified_slot validate_container validate_entries
    validate_member validate_entry serialize_container encrypt_slot_payload encrypt random_array
save_fails = refl

-- The storage and the session after the failure, and the session after one more edit.
abbrev after : MemoryStorage
after = (save toy memory_storage session 6 failing).3

abbrev later : UnlockedVault
later = (edit toy (updating renamed 300) (save toy memory_storage session 6 failing).1 7).0

-- The storage opens with what the save has written beside the committed container.
abbrev reopening : OpenedVault
reopening = record {
  vault = record {
    container = at_generation session.container (session.container.generation + 1);
    dek = session.dek;
    persisted_slot = other session.persisted_slot;
  };
  active_pointer_repaired = true;
}

abbrev final : MemoryStorage
final = (open_vault toy memory_storage password after).1

quiet-Shows : (m : MemoryStorage) → m.fail_get ≡ [] → Shows toy memory_storage m (view_of m)
quiet-Shows m quiet k = ground (arith, quiet)

quiet_after : after.fail_get ≡ []
unfolding stored failing fail_next_set session save encrypt_for_slot_at_generation persist other
    read_required_json read_optional_json verify_next_slot decrypt_candidate decrypt_container
    decrypt_slot_payload decrypt commit_verified_slot validate_container validate_entries
    validate_member validate_entry serialize_container encrypt_slot_payload encrypt random_array
quiet_after = refl

after-Shows : Shows toy memory_storage after (view_of after)
after-Shows = quiet-Shows after quiet_after

quiet_final : final.fail_get ≡ []
unfolding stored failing fail_next_set session save encrypt_for_slot_at_generation persist other
    read_required_json read_optional_json verify_next_slot decrypt_candidate decrypt_container
    decrypt_slot_payload decrypt commit_verified_slot validate_container validate_entries
    validate_member validate_entry serialize_container encrypt_slot_payload encrypt random_array
    open_vault read_candidates select usable_slot unwrap_dek authenticated candidate_order
    usable_pointer
quiet_final = refl

reopens : (open_vault toy memory_storage password after).0 ≡ ok reopening
unfolding stored failing fail_next_set session save encrypt_for_slot_at_generation persist other
    read_required_json read_optional_json verify_next_slot decrypt_candidate decrypt_container
    decrypt_slot_payload decrypt commit_verified_slot validate_container validate_entries
    validate_member validate_entry serialize_container encrypt_slot_payload encrypt random_array
    open_vault read_candidates select usable_slot unwrap_dek authenticated candidate_order
    usable_pointer
reopens = refl

final-Shows : Shows toy memory_storage final (view_of final)
final-Shows = quiet-Shows final quiet_final

history_recovers_example :
    ((o : OpenedVault) × ((open_vault toy memory_storage password final).0 ≡ ok o)
      × ((o.vault.container ≡ reopening.vault.container) ⊎ Elem o.vault.container []))
    ⊎ ((e : VaultError) × (slot : EncryptedVaultSlotV1) × ((write_json_verified memory_storage
            toy.pointer_json active_slot_key
            (pointer_to slot)
            1024
            final).0
          ≡ err e)
        × ((open_vault toy memory_storage password final).0 ≡ err e))
history_recovers_example =
    history_recovers toy memory_storage password toy-PlatformLaws memory_storage_laws
      created.metadata session failing created.unlocked.container reopening.vault final
      reopening.vault.container [] (view_of final) failing-InStep
      (reopened later after created.unlocked.container
        (at_generation session.container (session.container.generation + 1) ∷ [])
        (edited (save toy memory_storage session 6 failing).1 after created.unlocked.container
          (at_generation session.container (session.container.generation + 1) ∷ [])
          (failed session failing created.unlocked.container [] begins 6 (storage write_failed)
            save_fails)
          (updating renamed 300) 7)
        (view_of after) after-Shows reopening reopens)
      final-Shows

open_vault_prefers_example :
    ((vault : UnlockedVault) × (meta : VaultMetaV1) × Best toy (view_of after) password meta vault
      × Ending toy memory_storage
          (view_of after)
          vault
          after
          (open_vault toy memory_storage password after))
    ⊎ ((e : VaultError) × (open_vault toy memory_storage password after ≡ (err e, after))
        × (¬ (
            (meta : VaultMetaV1) × (dek : Bytes) × (place : SlotId) × (c : VaultContainerV1)
            × MetaIn toy (view_of after) password meta dek
            × SlotIn toy (view_of after) meta dek place c)))
open_vault_prefers_example =
    open_vault_prefers toy memory_storage password after (view_of after) after-Shows
