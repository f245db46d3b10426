-- ===== src/Bridge/JournalSteps.antt =====
-- crates/vault-wasm/src/bridge.rs: each call keeps what is known of the bridge
-- and the storage.
use package.pocket_vault.Base.{
  ◌+◌, ◌≤◌, ◌≡◌, ap, inl, inr, refl, String, Bytes, List, [], true, some, ok, err, len, arith,
  Result-cases, string_eq,
}
use package.pocket_vault.Model.{
  other, VaultMetaV1, VaultContainerV1, EncryptedVaultSlotV1, ActiveSlotV1,
}
use package.pocket_vault.Platform.{Platform, PlatformLaws}
use package.pocket_vault.Encoding.{Base64}
use package.pocket_vault.Vault.{UnlockedVault, at_generation, encrypt_for_slot}
use package.pocket_vault.Vault.Commits.{advanced, encrypt_for_slot-verify_next_slot}
use package.pocket_vault.Storage.{slot_key}
use package.pocket_vault.Storage.Recoverable.{InStep-Recoverable, edit-Recoverable}
use package.pocket_vault.Bridge.State.{
  PendingSave, VaultBridge, BridgeError, ensure_mutable, cancel_pending_save,
}
use package.pocket_vault.Bridge.Saving.{
  plan_save, prepare_save, check_slot, verify_pending_slot, commit_pending_save,
}
use package.pocket_vault.Bridge.Checks.{plan_save-eq-ok, check_slot-eq-ok, check_slot-text}
use package.pocket_vault.Bridge.Completion.{prepare_save-PreparationOf}
use package.pocket_vault.Bridge.Coherence.{IsCoherent}
use package.pocket_vault.Bridge.TwoPhase.{commit_pending_save_lem}
use package.pocket_vault.Bridge.Opening.{StorageSnapshot}
use package.pocket_vault.Bridge.Loading.{view_of}
use package.pocket_vault.Bridge.Editing.{Call, call, call-Edited}
use package.pocket_vault.Bridge.Journal.{PendingIn, Journal, commits-InStep}
use package.pocket_vault.Bridge.JournalWrites.{same_vault}

module _ {R : Type 0} (platform : Platform R) (promises : PlatformLaws platform) (password : Bytes)
    (meta : VaultMetaV1) (b : VaultBridge) (s : StorageSnapshot) (committed : VaultContainerV1)
    (tried : List VaultContainerV1) (j : Journal platform password meta b s committed tried) where
  Journal-IsCoherent : IsCoherent platform b
  Journal-IsCoherent p h = record {
    vault = j.vault;
    present = j.present;
    verified = λ _. (j.pending p h).verifies;
  }

  pub call-Journal :
      (base64 : Base64) (e : Call) (rng : R)
      → Journal platform password meta (call platform base64 e b rng) s committed tried
  call-Journal base64 e rng = elim (call-Edited platform base64 e b rng) [
    | inl same ↦ rw same j
    | inr (vault, change, rng', present, idle, after) ↦
        let here = same_vault platform promises password meta b s committed tried j vault present in
        rw (after, here)
          (record {
            vault = _;
            present = refl;
            recoverable =
                edit-Recoverable platform (view_of s) password meta j.vault committed tried change
                  rng' j.recoverable;
            pending = λ p h. absurd (cc);
          })
  ]

  prepare_save-err :
      (rng : R) (e : BridgeError)
      → (prepare_save platform b rng).0 ≡ err e
      → (prepare_save platform b rng).1 ≡ b
  unfolding prepare_save
  prepare_save-err rng e h = elim (Result-cases (ensure_mutable b)) [
    | inr (e', refused) ↦ ground (arith, refused)
    | inl (vault, allowed) ↦
        elim (Result-cases (encrypt_for_slot platform vault (other vault.persisted_slot) rng).0) [
          | inr (e', failed) ↦ ground (arith, allowed, failed)
          | inl (slot, sealed) ↦
              elim (Result-cases (plan_save platform (other vault.persisted_slot) slot)) [
                | inr (e', failed) ↦ ground (arith, allowed, sealed, failed)
                | inl (p, planned) ↦ absurd (ground (arith, allowed, sealed, planned))
              ]
        ]
  ]

  planned-PendingIn :
      (rng rng' : R) (slot : EncryptedVaultSlotV1) (p : PendingSave)
      → encrypt_for_slot platform j.vault (other j.vault.persisted_slot) rng ≡ (ok slot, rng')
      → plan_save platform (other j.vault.persisted_slot) slot ≡ ok p
      → PendingIn platform s j.vault p
  planned-PendingIn rng rng' slot p sealed planned =
      let (of_slot, unverified, slot_text, _, pointer) =
        plan_save-eq-ok platform (other j.vault.persisted_slot) slot p planned in
      record {
        verifies = rw of_slot (
            encrypt_for_slot-verify_next_slot platform promises j.vault rng rng' slot
              j.recoverable.held.sound sealed);
        encoded = rw of_slot slot_text;
        target = ap (λ (x : ActiveSlotV1). x.slot) pointer;
        stored = λ verified. absurd (ground (arith, unverified, verified));
      }

  pub prepare_save-Journal :
      (rng : R) → Journal platform password meta (prepare_save platform b rng).1 s committed tried
  prepare_save-Journal rng = elim (Result-cases (prepare_save platform b rng).0) [
    | inr (e, failed) ↦ rw (prepare_save-err rng e failed) j
    | inl (bundle, done) ↦
        let (_, b', rng') = prepare_save platform b rng in
        let made =
          prepare_save-PreparationOf platform b b' j.vault rng rng' bundle j.present
            (λ i. (done i, b', rng')) in
        rw made.after (record {
          vault = j.vault;
          present = j.present;
          recoverable = j.recoverable;
          pending = λ p h.
              let same : made.pending ≡ p = cc in
              rw (← same)
                (planned-PendingIn rng rng' made.slot made.pending made.sealed made.planned);
        })
  ]

  pub verify_pending_slot-Journal :
      (p : PendingSave) (text : String)
      → b.pending ≡ some p
      → view_of s (slot_key p.active_pointer.slot) ≡ some text
      → len text ≤ 5242880
      → Journal platform password meta (verify_pending_slot platform text b).1 s committed tried
  unfolding verify_pending_slot
  verify_pending_slot-Journal p text pending stored fits =
      elim (Result-cases (check_slot platform text b)) [
        | inr (e, refused) ↦ rw (refused, verify_pending_slot) j
        | inl (p', checked) ↦
            let (_, _, pending', _) = check_slot-eq-ok platform text b p' checked in
            let same : p' ≡ p = ground (arith, pending, pending') in
            let q = j.pending p pending in
            let read : text ≡ p.slot_json =
              rw same at (check_slot-text platform text b p' checked) in
            rw (checked, same, verify_pending_slot)
              (record {
                vault = j.vault;
                present = j.present;
                recoverable = j.recoverable;
                pending = λ p'' h.
                    let marked : record p { slot_verified = true } ≡ p'' = cc in
                    rw (← marked) (record {
                      verifies = q.verifies;
                      encoded = q.encoded;
                      target = q.target;
                      stored = λ _. (rw (← q.target, ← read) stored, rw (← read) fits);
                    });
              })
      ]

  pub commit_pending_save-Journal :
      (vault : UnlockedVault) (text : String)
      → b.vault ≡ some vault
      → (commit_pending_save platform text b).0 ≡ ok tt
      → Journal platform password meta
          (commit_pending_save platform text b).1
          s
          (at_generation vault.container (vault.container.generation + 1))
          []
  commit_pending_save-Journal vault text present done =
      elim (commit_pending_save_lem platform b text Journal-IsCoherent) [
        | inr (e, refused) ↦ absurd (ground (arith, refused))
        | inl (p, vault', pending, present', marked, _, _, after) ↦
            let q = j.pending p pending in
            let here =
              same_vault platform promises password meta b s committed tried j vault present in
            let there =
              same_vault platform promises password meta b s committed tried j vault' present' in
            rw (after, here, there)
              (record {
                vault = advanced j.vault;
                present = refl;
                recoverable =
                    InStep-Recoverable platform (view_of s) password meta (advanced j.vault)
                      (at_generation j.vault.container (j.vault.container.generation + 1))
                      (commits-InStep platform promises s password meta j.vault committed p
                        j.recoverable.held q marked);
                pending = λ p' h. absurd (cc);
              })
      ]

  pub refused-Journal :
      (text : String) (e : BridgeError)
      → (commit_pending_save platform text b).0 ≡ err e
      → Journal platform password meta (commit_pending_save platform text b).1 s committed tried
  refused-Journal text e failed =
      elim (commit_pending_save_lem platform b text Journal-IsCoherent) [
        | inl (_, _, _, _, _, _, _, after) ↦ absurd (ground (arith, after))
        | inr (_, refused) ↦ rw refused j
      ]

  pub cancel-Journal : Journal platform password meta (cancel_pending_save b) s committed tried
  unfolding cancel_pending_save
  cancel-Journal = record {
    vault = j.vault;
    present = j.present;
    recoverable = j.recoverable;
    pending = λ p h. absurd (cc);
  }
