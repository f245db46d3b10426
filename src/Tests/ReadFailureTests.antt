-- ===== src/Tests/ReadFailureTests.antt =====
-- `open` of crates/vault-core/src/storage.rs where one read of a slot fails, after a save that
-- finished.
use package.pocket_vault.Base.{◌≡◌, refl, true, ok}
use package.pocket_vault.Model.{
  other, validate_container, validate_entries, validate_member, validate_entry,
}
use package.pocket_vault.Crypto.{
  decrypt_slot_payload, decrypt, encrypt_slot_payload, encrypt, random_array, unwrap_dek,
}
use package.pocket_vault.Vault.{
  encrypt_for_slot_at_generation, verify_next_slot, decrypt_candidate, decrypt_container,
  commit_verified_slot, serialize_container,
}
use package.pocket_vault.Storage.{
  MemoryStorage, memory_storage, save, persist, read_required_json, read_optional_json,
  fail_next_get, open_vault, slot_b_key, read_candidates, select, usable_slot, authenticated,
  candidate_order, usable_pointer,
}
use package.pocket_vault.Tests.Toy.{toy}
use package.pocket_vault.Tests.Scene.{password, created, session}
use package.pocket_vault.Tests.StorageTests.{stored}

abbrev saved : MemoryStorage
saved = (save toy memory_storage session 6 stored).3

save_finishes : (save toy memory_storage session 6 stored).0 ≡ ok tt
unfolding stored session save encrypt_for_slot_at_generation persist other read_required_json
    read_optional_json verify_next_slot decrypt_candidate decrypt_container decrypt_slot_payload
    decrypt commit_verified_slot validate_container validate_entries validate_member validate_entry
    serialize_container encrypt_slot_payload encrypt random_array open_vault read_candidates select
    usable_slot unwrap_dek authenticated candidate_order usable_pointer fail_next_get
save_finishes = refl

-- The read of the slot just saved fails once: the older slot is opened, and no error is reported.
read_failure :
    (open_vault toy memory_storage password (fail_next_get slot_b_key saved)).0
    ≡ ok (record { vault = created.unlocked; active_pointer_repaired = true })
unfolding stored session save encrypt_for_slot_at_generation persist other read_required_json
    read_optional_json verify_next_slot decrypt_candidate decrypt_container decrypt_slot_payload
    decrypt commit_verified_slot validate_container validate_entries validate_member validate_entry
    serialize_container encrypt_slot_payload encrypt random_array open_vault read_candidates select
    usable_slot unwrap_dek authenticated candidate_order usable_pointer fail_next_get
read_failure = refl
