-- ===== src/Bridge/Completion.antt =====
-- crates/vault-wasm/src/bridge.rs: a save from its preparation to its commit.
use package.pocket_vault.Base.{
  ◌≡◌, refl, inl, inr, true, none, some, ok, Result-cases, arith, ==_iff, string_eq,
}
use package.pocket_vault.Model.{other, EncryptedVaultSlotV1, encrypted_slot_eq, active_slot_eq}
use package.pocket_vault.Model.Spec.{ContainerIsSound}
use package.pocket_vault.Platform.{Platform, PlatformLaws}
use package.pocket_vault.Vault.{UnlockedVault, encrypt_for_slot, verify_next_slot}
use package.pocket_vault.Vault.Commits.{
  advanced, commit_verified_slot_lem, encrypt_for_slot-verify_next_slot,
}
use package.pocket_vault.Bridge.State.{SaveBundle, PendingSave, VaultBridge, ensure_mutable}
use package.pocket_vault.Bridge.Saving.{
  plan_save, bundle_of, prepare_save, check_slot, verify_pending_slot, check_pointer,
  commit_pending_save,
}
use package.pocket_vault.Bridge.Checks.{ensure_mutable-eq-ok, plan_save-eq-ok}

module _ {R : Type 0} (platform : Platform R) where
  open platform use {slot_json, pointer_json}

  -- What a `prepare_save` that succeeded has done.
  pub record PreparationOf (b b' : VaultBridge) (vault : UnlockedVault) (rng rng' : R)
      (bundle : SaveBundle) : Type 0 where
    pub slot : EncryptedVaultSlotV1
    pub pending : PendingSave
    pub sealed : encrypt_for_slot platform vault (other vault.persisted_slot) rng ≡ (ok slot, rng')
    pub planned : plan_save platform (other vault.persisted_slot) slot ≡ ok pending
    pub after : b' ≡ record b { pending = some pending }
    pub returned : bundle ≡ bundle_of platform pending

  pub prepare_save-PreparationOf :
      (b b' : VaultBridge) (vault : UnlockedVault) (rng rng' : R) (bundle : SaveBundle)
      → b.vault ≡ some vault
      → prepare_save platform b rng ≡ (ok bundle, b', rng')
      → PreparationOf b b' vault rng rng' bundle
  unfolding prepare_save
  prepare_save-PreparationOf b b' vault rng rng' bundle present h =
      elim (Result-cases (ensure_mutable b)) [
        | inr (e, refused) ↦ absurd (ground (arith, refused))
        | inl (v, allowed) ↦
            let same : v ≡ vault =
              ground (arith, ensure_mutable-eq-ok platform b v allowed, present) in
            let mutable : ensure_mutable b ≡ ok vault = rw (← same) allowed in
            let target = other vault.persisted_slot in
            elim (Result-cases (encrypt_for_slot platform vault target rng).0) [
              | inr (e, failed) ↦ absurd (ground (arith, mutable, failed))
              | inl (slot, sealed) ↦ elim (Result-cases (plan_save platform target slot)) [
                | inr (e, failed) ↦ absurd (ground (arith, mutable, sealed, failed))
                | inl (p, planned) ↦ record {
                  slot = slot;
                  pending = p;
                  sealed = ground (arith, mutable, sealed, planned);
                  planned = planned;
                  after = ground (arith, mutable, sealed, planned);
                  returned = ground (arith, mutable, sealed, planned);
                }
              ]
            ]
      ]

  verify_pending_slot_succeeds :
      (b : VaultBridge) (vault : UnlockedVault) (p : PendingSave)
      → b.vault ≡ some vault
      → b.pending ≡ some p
      → slot_json.decode p.slot_json ≡ some p.slot
      → verify_next_slot platform vault p.slot ≡ ok tt
      → verify_pending_slot platform p.slot_json b
        ≡ (ok tt, record b { pending = some (record p { slot_verified = true }) })
  unfolding verify_pending_slot check_slot
  verify_pending_slot_succeeds b vault p present pending decoded verified = ground (
    arith,
    present,
    pending,
    decoded,
    verified,
    ==_iff p.slot_json p.slot_json,
    ==_iff p.slot p.slot,
  )

  commit_pending_save_succeeds :
      (b : VaultBridge) (vault : UnlockedVault) (p : PendingSave)
      → b.vault ≡ some vault
      → b.pending ≡ some p
      → p.slot_verified ≡ true
      → pointer_json.decode p.active_pointer_json ≡ some p.active_pointer
      → verify_next_slot platform vault p.slot ≡ ok tt
      → commit_pending_save platform p.active_pointer_json b
        ≡ (ok tt, record b { vault = some (advanced vault); pending = none })
  unfolding commit_pending_save check_pointer
  commit_pending_save_succeeds b vault p present pending marked decoded verified =
      elim (commit_verified_slot_lem platform vault p.slot) [
        | inr (e, refused, _) ↦ absurd (ground (arith, refused, verified))
        | inl (_, committed) ↦ ground (
          arith,
          present,
          pending,
          marked,
          decoded,
          committed,
          ==_iff p.active_pointer_json p.active_pointer_json,
          ==_iff p.active_pointer p.active_pointer,
        )
      ]

  -- A prepared save of a sound session, whose two texts are handed back as they were prepared, goes
  -- through: both calls succeed, and the session is at the prepared slot and generation.
  pub two_phase_save :
      (promises : PlatformLaws platform) (b b' : VaultBridge) (vault : UnlockedVault) (rng rng' : R)
      (bundle : SaveBundle)
      → b.vault ≡ some vault
      → ContainerIsSound vault.container
      → prepare_save platform b rng ≡ (ok bundle, b', rng')
      → ((verify_pending_slot platform bundle.slot_json b').0 ≡ ok tt)
        × (commit_pending_save platform bundle.active_pointer_json
              (verify_pending_slot platform bundle.slot_json b').1
            ≡ (ok tt, record b { vault = some (advanced vault); pending = none }))
  two_phase_save promises b b' vault rng rng' bundle present sound h =
      let made = prepare_save-PreparationOf b b' vault rng rng' bundle present h in
      let p = made.pending in
      let (of_slot, _, slot_text, pointer_text, _) =
        plan_save-eq-ok platform (other vault.persisted_slot) made.slot p made.planned in
      let verified : verify_next_slot platform vault p.slot ≡ ok tt = rw of_slot (
        encrypt_for_slot-verify_next_slot platform promises vault rng rng' made.slot sound
          made.sealed) in
      let decoded : slot_json.decode p.slot_json ≡ some p.slot =
        rw of_slot (promises.slot_laws.decode-encode made.slot p.slot_json slot_text) in
      let pointed =
        promises.pointer_laws.decode-encode p.active_pointer p.active_pointer_json pointer_text in
      let b1 : VaultBridge = record b { pending = some p } in
      let first = verify_pending_slot_succeeds b1 vault p present refl decoded verified in
      let q : PendingSave = record p { slot_verified = true } in
      let b2 : VaultBridge = record b { pending = some q } in
      let second = commit_pending_save_succeeds b2 vault q present refl refl pointed verified in
      rw (made.after, made.returned, first) (refl, second)
