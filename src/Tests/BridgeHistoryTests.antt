-- ===== src/Tests/BridgeHistoryTests.antt =====
-- A save of the bridge whose texts are written and verified, that is committed, and an edit after it.
use package.pocket_vault.Base.{
  ◌≡◌, ◌⊎◌, ◌+◌, ◌≤◌, ◌∙◌, ap, refl, String, none, some, ok, err, [], ◌∷◌, Elem, Result, len, arith,
}
use package.pocket_vault.Error.{VaultError}
use package.pocket_vault.Model.{EncryptedVaultSlotV1, VaultContainerV1}
use package.pocket_vault.Vault.{UnlockedVault, at_generation}
use package.pocket_vault.Vault.Commits.{advanced}
use package.pocket_vault.Storage.{
  memory_storage, active_slot_key, pointer_to, write_json_verified, slot_key,
}
use package.pocket_vault.Bridge.{
  BridgeError, StorageSnapshot, VaultBridge, PendingSave, SaveBundle, OpenBundle, in_vault,
  prepare_save, verify_pending_slot, commit_pending_save, open_session, load,
}
use package.pocket_vault.Bridge.Completion.{
  PreparationOf, prepare_save-PreparationOf, two_phase_save,
}
use package.pocket_vault.Bridge.Loading.{view_of}
use package.pocket_vault.Bridge.Editing.{delete, call}
use package.pocket_vault.Bridge.Journal.{with_slot, view_of-with_slot}
use package.pocket_vault.Bridge.History.{
  begins, prepares, stores_slot, verifies, commits, calls, bridge_recovers,
}
use package.pocket_vault.Tests.Toy.{toy, toy-PlatformLaws}
use package.pocket_vault.Tests.ToyBase64.{toy_base64}
use package.pocket_vault.Tests.Scene.{password, created, session, session-IsSound}
use package.pocket_vault.Tests.BridgeTests.{bridge, bundle, prepared_runs}
use package.pocket_vault.Tests.ReopenTests.{snapshot, snapshot-InStep, id_text}

abbrev preparing : VaultBridge
preparing = (prepare_save toy bridge 6).1

made : PreparationOf toy bridge preparing session 6 7 bundle
made = prepare_save-PreparationOf toy bridge preparing session 6 7 bundle refl prepared_runs

abbrev saving : PendingSave
saving = made.pending

is_pending : preparing.pending ≡ some saving
is_pending = ap (λ (b : VaultBridge). b.pending) made.after

is_open : preparing.vault ≡ some session
is_open = ap (λ (b : VaultBridge). b.vault) made.after

text_lem : bundle.slot_json ≡ saving.slot_json
text_lem = ap (λ (x : SaveBundle). x.slot_json) made.returned

fits_bundle : len bundle.slot_json ≤ 5242880
unfolding bundle
fits_bundle = omega arith

fits : len saving.slot_json ≤ 5242880
fits = rw (← text_lem) fits_bundle

abbrev written : StorageSnapshot
written = with_slot saving.active_pointer.slot saving.slot_json snapshot

abbrev verified : VaultBridge
verified = (verify_pending_slot toy bundle.slot_json preparing).1

verify-vault :
    (text : String) (b : VaultBridge) → (verify_pending_slot toy text b).1.vault ≡ b.vault
unfolding verify_pending_slot
verify-vault text b = ground arith

reads_written : view_of written (slot_key saving.active_pointer.slot) ≡ some bundle.slot_json
reads_written =
    rw text_lem (view_of-with_slot saving.active_pointer.slot saving.slot_json snapshot).1

phases :
    ((verify_pending_slot toy bundle.slot_json preparing).0 ≡ ok tt)
    × (commit_pending_save toy bundle.active_pointer_json verified
        ≡ (ok tt, record bridge { vault = some (advanced session); pending = none }))
phases =
    two_phase_save toy toy-PlatformLaws bridge preparing session 6 7 bundle refl session-IsSound
      prepared_runs

abbrev committed : VaultBridge
committed = (commit_pending_save toy bundle.active_pointer_json verified).1

abbrev contents : VaultContainerV1
contents = at_generation session.container (session.container.generation + 1)

bridge_recovers_example :
    ((opened : OpenBundle) × (v : UnlockedVault) × (open_session toy password written ≡ ok opened)
      × (opened.session.vault ≡ some v)
      × ((v.container ≡ contents) ⊎ Elem v.container []))
    ⊎ ((e : VaultError) × (slot : EncryptedVaultSlotV1) × ((write_json_verified memory_storage
            toy.pointer_json active_slot_key
            (pointer_to slot)
            1024
            (load written)).0
          ≡ err e)
        × (open_session toy password written ≡ err (in_vault e)))
bridge_recovers_example =
    bridge_recovers toy toy_base64 password toy-PlatformLaws created.metadata bridge snapshot
      session created.unlocked.container (call toy toy_base64 (delete id_text 400) committed 7)
      written contents [] snapshot-InStep refl refl
      (calls committed written contents []
        (commits verified written created.unlocked.container (contents ∷ [])
          (verifies preparing written created.unlocked.container (contents ∷ [])
            (stores_slot preparing snapshot created.unlocked.container []
              (prepares bridge snapshot created.unlocked.container [] begins 6) saving session
              is_pending is_open fits)
            saving bundle.slot_json is_pending reads_written fits_bundle)
          session bundle.active_pointer_json (verify-vault bundle.slot_json preparing ∙ is_open)
          (ap (λ (r : Result BridgeError (Unit {0}) × VaultBridge). r.0) phases.1))
        (delete id_text 400) 7)
