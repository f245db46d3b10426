-- ===== src/Tests/StorageTests.antt =====
-- The tests of crates/vault-core/src/storage.rs on one vault in the in-memory storage.
use package.pocket_vault.Base.{
  ◌≡◌, ◌⊎◌, ◌+◌, inl, inr, refl, String, [], ◌∷◌, Option, none, ok, err,
}
use package.pocket_vault.Error.{VaultError}
use package.pocket_vault.Model.{
  default_config, other, validate_meta, validate_slot, validate_format, validate_pointer,
  validate_container, validate_entries, validate_member, validate_entry, aad_byte,
}
use package.pocket_vault.Crypto.{
  decrypt_slot_payload, decrypt, encrypt_slot_payload, encrypt, random_array, vault_slot_aad,
  push_aad_field, wrapped_dek_aad,
}
use package.pocket_vault.Vault.{
  at_generation, encrypt_for_slot_at_generation, verify_next_slot, decrypt_candidate,
  commit_verified_slot, serialize_container, decrypt_container,
}
use package.pocket_vault.Vault.Commits.{advanced}
use package.pocket_vault.Vault.Reopen.{CreationOf, create_vault-CreationOf}
use package.pocket_vault.Storage.{
  MemoryStorage, memory_storage, empty_memory, lookup, fail_next_set, memory_storage_laws,
  write_json_verified, persist, read_required_json, read_optional_json, initialize, save,
  clear_device_storage, clear_keys, meta_key, slot_key, slot_a_key, slot_b_key, active_slot_key,
  select,
}
use package.pocket_vault.Storage.SaveSafety.{Published}
use package.pocket_vault.Storage.Save.{save_keeps_committed, save_orders_writes, save_result}
use package.pocket_vault.Storage.Newest.{select-newest}
use package.pocket_vault.Storage.Holding.{InStep}
use package.pocket_vault.Storage.Crash.{save-InStep}
use package.pocket_vault.Storage.Initialize.{initialize-InStep}
use package.pocket_vault.Storage.Lifecycle.{edits-InStep}
use package.pocket_vault.Storage.Clear.{clear_device_storage-empty}
use package.pocket_vault.Tests.Toy.{toy, toy-PlatformLaws}
use package.pocket_vault.Tests.Scene.{password, created, created_runs, mail, session}

-- The storage after the created vault was initialized in it.
unfoldable pub stored : MemoryStorage
unfolding created initialize validate_meta validate_format validate_slot validate_pointer
    write_json_verified vault_slot_aad push_aad_field aad_byte wrapped_dek_aad
stored = (initialize toy memory_storage created empty_memory).1

stored_runs : initialize toy memory_storage created empty_memory ≡ (ok tt, stored)
unfolding stored
stored_runs = refl

abbrev pub view_of : MemoryStorage → String → Option String
view_of m k = lookup k m.values

-- The second slot's key holds a text that is no slot.
abbrev littered_memory : MemoryStorage
littered_memory = record empty_memory { values = (slot_b_key, "no slot") ∷ [] }

unfoldable stored_beside : MemoryStorage
unfolding created initialize validate_meta validate_format validate_slot validate_pointer
    write_json_verified vault_slot_aad push_aad_field aad_byte wrapped_dek_aad
stored_beside = (initialize toy memory_storage created littered_memory).1

stored_beside_runs : initialize toy memory_storage created littered_memory ≡ (ok tt, stored_beside)
unfolding stored_beside
stored_beside_runs = refl

initialize-InStep_example :
    InStep toy
      (memory_storage_laws.peek stored_beside)
      password
      created.metadata
      created.unlocked
      created.unlocked.container
    × (created.unlocked.container.entries ≡ [])
unfolding memory_storage_laws
initialize-InStep_example =
    initialize-InStep toy memory_storage_laws toy-PlatformLaws password default_config 100 0 5
      created littered_memory stored_beside created_runs stored_beside_runs (λ x readable. cc)

-- The new session and the storage, for the other tests.
created-InStep :
    InStep toy
      (view_of stored)
      password
      created.metadata
      created.unlocked
      created.unlocked.container
unfolding memory_storage_laws
created-InStep =
    (initialize-InStep toy memory_storage_laws toy-PlatformLaws password default_config 100 0 5
      created empty_memory stored created_runs stored_runs (λ x readable. cc)).0

pub session-InStep :
    InStep toy (view_of stored) password created.metadata session created.unlocked.container
unfolding session
session-InStep =
    (edits-InStep toy (view_of stored) password created.metadata created.unlocked
        created.unlocked.container created-InStep 200).0
      mail 5

-- The storage whose next write of the pointer fails.
unfoldable pub failing : MemoryStorage
unfolding fail_next_set
failing = fail_next_set active_slot_key stored

save_keeps_committed_example :
    (memory_storage_laws.peek (save toy memory_storage session 6 failing).3 meta_key
      ≡ memory_storage_laws.peek failing meta_key)
    × (memory_storage_laws.peek
          (save toy memory_storage session 6 failing).3
          (slot_key session.persisted_slot)
        ≡ memory_storage_laws.peek failing (slot_key session.persisted_slot))
save_keeps_committed_example = save_keeps_committed toy memory_storage_laws session 6 failing

save_orders_writes_example :
    (memory_storage_laws.peek (save toy memory_storage session 6 failing).3 active_slot_key
      ≡ memory_storage_laws.peek failing active_slot_key)
    ⊎ Published toy memory_storage_laws session
        (other session.persisted_slot)
        (session.container.generation + 1)
        (save toy memory_storage session 6 failing).3
save_orders_writes_example = save_orders_writes toy memory_storage_laws session 6 failing

save_result_example :
    (((save toy memory_storage session 6 stored).0 ≡ ok tt)
      × ((save toy memory_storage session 6 stored).1 ≡ advanced session)
      × Published toy memory_storage_laws session
          (other session.persisted_slot)
          (session.container.generation + 1)
          (save toy memory_storage session 6 stored).3)
    ⊎ ((e : VaultError) × ((save toy memory_storage session 6 stored).0 ≡ err e)
        × ((save toy memory_storage session 6 stored).1 ≡ session))
save_result_example = save_result toy memory_storage_laws session 6 stored

creation : CreationOf toy password created
creation =
    create_vault-CreationOf toy toy-PlatformLaws password default_config 100 0 5 created
      created_runs

select-newest_example :
    select toy password created.metadata none (created.initial_slot ∷ [])
    ≡ ok ((created.initial_slot, created.unlocked.container), created.unlocked.dek)
unfolding created
select-newest_example =
    select-newest toy none password creation.kek created.unlocked.dek created.metadata
      (created.initial_slot ∷ []) created.initial_slot created.unlocked.container creation.derived
      creation.unwrapped (inl refl) creation.decrypted refl
      (λ x e. elim e [ inl same ↦ inl same | inr rest ↦ absurd rest ])

cleared_runs :
    clear_device_storage memory_storage stored
    ≡ (ok tt, (clear_device_storage memory_storage stored).1)
unfolding stored clear_device_storage clear_keys
cleared_runs = refl

clear_device_storage-empty_example :
    (memory_storage_laws.peek (clear_device_storage memory_storage stored).1 meta_key ≡ none)
    × (memory_storage_laws.peek (clear_device_storage memory_storage stored).1 slot_a_key ≡ none)
    × (memory_storage_laws.peek (clear_device_storage memory_storage stored).1 slot_b_key ≡ none)
    × (memory_storage_laws.peek (clear_device_storage memory_storage stored).1 active_slot_key
        ≡ none)
clear_device_storage-empty_example =
    clear_device_storage-empty memory_storage_laws stored
      (clear_device_storage memory_storage stored).1 cleared_runs

pub save_runs : (save toy memory_storage session 6 stored).0 ≡ ok tt
unfolding stored session save encrypt_for_slot_at_generation persist other read_required_json
    read_optional_json verify_next_slot decrypt_candidate decrypt_container decrypt_slot_payload
    decrypt commit_verified_slot validate_container validate_entries validate_member validate_entry
    serialize_container encrypt_slot_payload encrypt random_array
save_runs = refl

save-InStep_example :
    InStep toy
      (memory_storage_laws.peek (save toy memory_storage session 6 stored).3)
      password
      created.metadata
      (save toy memory_storage session 6 stored).1
      (at_generation session.container (session.container.generation + 1))
unfolding memory_storage_laws
save-InStep_example =
    save-InStep toy toy-PlatformLaws memory_storage_laws session 6 stored password created.metadata
      created.unlocked.container session-InStep save_runs
