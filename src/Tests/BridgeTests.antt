-- ===== src/Tests/BridgeTests.antt =====
-- The tests of crates/vault-wasm/src/bridge.rs on one session.
use package.pocket_vault.Base.{◌≡◌, ◌⊎◌, refl, true, none, some, ok, err}
use package.pocket_vault.Model.{other, aad_byte}
use package.pocket_vault.Crypto.{
  vault_slot_aad, push_aad_field, encrypt_slot_payload, encrypt, random_array,
}
use package.pocket_vault.Vault.{
  UnlockedVault, encrypt_for_slot, encrypt_for_slot_at_generation, serialize_container,
  verify_next_slot,
}
use package.pocket_vault.Vault.Commits.{advanced}
use package.pocket_vault.Bridge.{
  BridgeError, SaveBundle, PendingSave, VaultBridge, ensure_mutable, plan_save, prepare_save,
  verify_pending_slot, commit_pending_save,
}
use package.pocket_vault.Bridge.Coherence.{IsCoherent}
use package.pocket_vault.Bridge.Steps.{done, next, reachable-IsCoherent}
use package.pocket_vault.Bridge.TwoPhase.{
  verifies, prepares, Step-IsCoherent, commit_pending_save_lem,
}
use package.pocket_vault.Bridge.Completion.{two_phase_save}
use package.pocket_vault.Tests.Toy.{toy, toy-PlatformLaws}
use package.pocket_vault.Tests.Scene.{created, value_or, session, session-IsSound}

abbrev pub bridge : VaultBridge
bridge = record {
  vault = some session;
  metadata = some created.metadata;
  pending = none;
  pending_password_change = none;
}

abbrev no_bundle : SaveBundle
no_bundle = record { slot_name = ""; slot_json = ""; active_pointer_json = "" }

unfoldable pub bundle : SaveBundle
unfolding session prepare_save ensure_mutable plan_save encrypt_for_slot
    encrypt_for_slot_at_generation serialize_container encrypt_slot_payload encrypt random_array
    vault_slot_aad push_aad_field aad_byte other
bundle = value_or (prepare_save toy bridge 6).0 no_bundle

pub prepared_runs : prepare_save toy bridge 6 ≡ (ok bundle, (prepare_save toy bridge 6).1, 7)
unfolding bundle
prepared_runs = refl

two_phase_save_example :
    ((verify_pending_slot toy bundle.slot_json (prepare_save toy bridge 6).1).0 ≡ ok tt)
    × (commit_pending_save toy bundle.active_pointer_json
          (verify_pending_slot toy bundle.slot_json (prepare_save toy bridge 6).1).1
        ≡ (ok tt, record bridge { vault = some (advanced session); pending = none }))
two_phase_save_example =
    two_phase_save toy toy-PlatformLaws bridge (prepare_save toy bridge 6).1 session 6 7 bundle refl
      session-IsSound prepared_runs

abbrev prepared : VaultBridge
prepared = (prepare_save toy bridge 6).1

-- A save that is prepared, and whose slot is read back.
reachable-IsCoherent_example : IsCoherent toy (verify_pending_slot toy bundle.slot_json prepared).1
reachable-IsCoherent_example =
    reachable-IsCoherent toy bridge (verify_pending_slot toy bundle.slot_json prepared).1 refl (
      next bridge prepared (verify_pending_slot toy bundle.slot_json prepared).1 (prepares bridge 6)
        (next prepared (verify_pending_slot toy bundle.slot_json prepared).1
          (verify_pending_slot toy bundle.slot_json prepared).1 (verifies prepared bundle.slot_json)
          (done (verify_pending_slot toy bundle.slot_json prepared).1)))

prepared-IsCoherent : IsCoherent toy (prepare_save toy bridge 6).1
prepared-IsCoherent =
    Step-IsCoherent toy bridge (prepare_save toy bridge 6).1 (prepares bridge 6) (λ p h. cc)

commit_pending_save_lem_example :
    ((p : PendingSave) × (vault : UnlockedVault) × ((prepare_save toy bridge 6).1.pending ≡ some p)
      × ((prepare_save toy bridge 6).1.vault ≡ some vault)
      × (p.slot_verified ≡ true)
      × (bundle.active_pointer_json ≡ p.active_pointer_json)
      × (verify_next_slot toy vault p.slot ≡ ok tt)
      × (commit_pending_save toy bundle.active_pointer_json (prepare_save toy bridge 6).1 ≡ (
        ok tt,
        record (prepare_save toy bridge 6).1 { vault = some (advanced vault); pending = none },
      )))
    ⊎ ((e : BridgeError) × (commit_pending_save toy bundle.active_pointer_json
            (prepare_save toy bridge 6).1
          ≡ (err e, (prepare_save toy bridge 6).1)))
commit_pending_save_lem_example =
    commit_pending_save_lem toy (prepare_save toy bridge 6).1 bundle.active_pointer_json
      prepared-IsCoherent
