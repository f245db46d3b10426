-- ===== src/Tests/VaultTests.antt =====
-- The tests of crates/vault-core/src/vault.rs on one vault.
use package.pocket_vault.Base.{[], ◌∷◌, ◌≡◌, ◌↔◌, ◌⊎◌, ◌+◌, ◌<◌, refl, ok, err, from_utf8}
use package.pocket_vault.Error.{VaultError}
use package.pocket_vault.Model.{
  entry_id_eq, VaultMetaV1, default_config, other, from_config, validate_kdf, validate_meta,
  validate_format,
}
use package.pocket_vault.Model.Spec.{ContainerIsSound, SlotIsSound}
use package.pocket_vault.Crypto.{
  wrapped_dek_aad, push_aad_field, random_array, derive_kek, wrap_dek, unwrap_dek, encrypt, decrypt,
}
use package.pocket_vault.Vault.{
  unlock_vault, rewrap_vault_key, authorize_rewrap, fresh_kek, validate_new_master_password,
  at_generation, verify_next_slot, commit_verified_slot, decrypt_container,
}
use package.pocket_vault.Vault.Edits.{adding, updating, deleting, edit_all, edit_all-IsSound}
use package.pocket_vault.Vault.Commits.{
  advanced, verify_next_slot_iff, commit_verified_slot_lem, encrypt_for_slot-verify_next_slot,
}
use package.pocket_vault.Vault.Reopen.{create_vault-unlock_vault}
use package.pocket_vault.Vault.Rewrap.{rewrap_vault_key-unlock_vault}
use package.pocket_vault.Tests.Toy.{toy, toy-PlatformLaws}
use package.pocket_vault.Tests.Scene.{
  password, new_password, value_or, no_meta, created, created_runs, mail, mail_id, renamed,
  created-IsSound, session, session-IsSound, next_slot, next_slot_runs,
}

create_vault-unlock_vault_example :
    unlock_vault toy password created.metadata created.initial_slot ≡ ok created.unlocked
create_vault-unlock_vault_example =
    create_vault-unlock_vault toy toy-PlatformLaws password default_config 100 0 5 created
      created_runs

unfoldable rewrapped : VaultMetaV1
unfolding created session validate_meta validate_format wrapped_dek_aad push_aad_field
    rewrap_vault_key authorize_rewrap validate_new_master_password from_utf8 random_array fresh_kek
    validate_kdf from_config derive_kek wrap_dek unwrap_dek encrypt decrypt
rewrapped =
    value_or
      (rewrap_vault_key toy password new_password created.metadata session default_config 6).0
      no_meta

rewrapped_runs :
    rewrap_vault_key toy password new_password created.metadata session default_config 6
    ≡ (ok rewrapped, 8)
unfolding rewrapped validate_meta validate_format session wrapped_dek_aad push_aad_field
rewrapped_runs = refl

rewrap_vault_key-unlock_vault_example :
    unlock_vault toy new_password rewrapped created.initial_slot
    ≡ unlock_vault toy password created.metadata created.initial_slot
rewrap_vault_key-unlock_vault_example =
    rewrap_vault_key-unlock_vault toy toy-PlatformLaws password new_password created.metadata
      rewrapped session default_config 6 8 created.initial_slot rewrapped_runs

encrypt_for_slot-verify_next_slot_example : verify_next_slot toy session next_slot ≡ ok tt
encrypt_for_slot-verify_next_slot_example =
    encrypt_for_slot-verify_next_slot toy toy-PlatformLaws session 6 7 next_slot session-IsSound
      next_slot_runs

verify_next_slot_iff_example : (verify_next_slot toy session next_slot ≡ ok tt) ↔ (
    (session.container.generation + 1 < 18446744073709551616)
    × (next_slot.slot ≡ other session.persisted_slot)
    × (next_slot.generation ≡ session.container.generation + 1)
    × SlotIsSound next_slot session.container.vault_id
    × (decrypt_container toy session.dek next_slot
        ≡ ok (at_generation session.container (session.container.generation + 1))))
verify_next_slot_iff_example = verify_next_slot_iff toy session next_slot

commit_verified_slot_lem_example :
    ((verify_next_slot toy session next_slot ≡ ok tt)
      × (commit_verified_slot toy next_slot session ≡ (ok tt, advanced session)))
    ⊎ ((e : VaultError) × (verify_next_slot toy session next_slot ≡ err e)
        × (commit_verified_slot toy next_slot session ≡ (err e, session)))
commit_verified_slot_lem_example = commit_verified_slot_lem toy session next_slot

edit_all-IsSound_example :
    ContainerIsSound
      (edit_all toy
        (adding mail 200 ∷ updating renamed 300 ∷ deleting mail_id 300 ∷ [])
        created.unlocked
        5).0.container
edit_all-IsSound_example =
    edit_all-IsSound toy (adding mail 200 ∷ updating renamed 300 ∷ deleting mail_id 300 ∷ [])
      created.unlocked 5 created-IsSound
