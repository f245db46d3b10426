-- ===== src/Bridge/TwoPhase.antt =====
-- crates/vault-wasm/src/bridge.rs: the calls on a bridge as a step relation, and what they keep of a
-- pending save.
use package.pocket_vault.Base.{
  ℕ, Option, ◌≡◌, ◌⊎◌, inl, inr, refl, String, Bytes, true, none, some, ok, err, Result-cases,
  arith, string_eq,
}
use package.pocket_vault.Model.{other, encrypted_slot_eq, active_slot_eq}
use package.pocket_vault.Platform.{Platform}
use package.pocket_vault.Vault.{UnlockedVault, encrypt_for_slot, verify_next_slot}
use package.pocket_vault.Vault.Commits.{advanced, commit_verified_slot_lem}
use package.pocket_vault.Bridge.State.{
  BridgeError, in_vault, PendingSave, VaultBridge, ensure_mutable, cancel_pending_save,
  cancel_password_change, lock,
}
use package.pocket_vault.Bridge.Saving.{
  plan_save, prepare_save, check_slot, verify_pending_slot, check_pointer, commit_pending_save,
  prepare_password_change, commit_password_change,
}
use package.pocket_vault.Bridge.Checks.{
  ensure_mutable-eq-ok, plan_save-eq-ok, check_slot-eq-ok, check_pointer-eq-ok,
}
use package.pocket_vault.Encoding.{Base64}
use package.pocket_vault.Bridge.Entries.{add_entry, update_entry, delete_entry}
use package.pocket_vault.Bridge.Coherence.{
  IsCoherent, same-IsCoherent, add_entry-IsCoherent, update_entry-IsCoherent,
  delete_entry-IsCoherent,
}

module _ {R : Type 0} (platform : Platform R) where
  open platform use {slot_json, pointer_json}

  -- The calls on a bridge that change it.
  pub data Step : VaultBridge → VaultBridge → Type 0 where
    prepares : (b : VaultBridge) (rng : R) → Step b (prepare_save platform b rng).1
    verifies : (b : VaultBridge) (text : String) → Step b (verify_pending_slot platform text b).1
    commits : (b : VaultBridge) (text : String) → Step b (commit_pending_save platform text b).1
    cancels : (b : VaultBridge) → Step b (cancel_pending_save b)
    adds :
        (base64 : Base64) (b : VaultBridge) (title secret : String) (description : Option String)
        (now : ℕ) (rng : R)
        → Step b (add_entry base64 platform title secret description now b rng).1
    updates :
        (base64 : Base64) (b : VaultBridge) (id title secret : String) (description : Option String)
        (now : ℕ)
        → Step b (update_entry base64 id title secret description now b).1
    deletes :
        (base64 : Base64) (b : VaultBridge) (id : String) (now : ℕ)
        → Step b (delete_entry base64 id now b).1
    prepares_password :
        (b : VaultBridge) (current new : Bytes) (rng : R)
        → Step b (prepare_password_change platform current new b rng).1
    commits_password :
        (b : VaultBridge) (text : String) → Step b (commit_password_change platform text b).1
    cancels_password : (b : VaultBridge) → Step b (cancel_password_change b)
    locks : (b : VaultBridge) → Step b (lock b)

  -- A commit that succeeds on a coherent bridge was given the text of the pending pointer, and moves
  -- the session to the slot that was verified; a refused commit changes nothing.
  pub commit_pending_save_lem :
      (b : VaultBridge) (text : String)
      → IsCoherent platform b
      → ((p : PendingSave) × (vault : UnlockedVault) × (b.pending ≡ some p)
          × (b.vault ≡ some vault)
          × (p.slot_verified ≡ true)
          × (text ≡ p.active_pointer_json)
          × (verify_next_slot platform vault p.slot ≡ ok tt)
          × (commit_pending_save platform text b
              ≡ (ok tt, record b { vault = some (advanced vault); pending = none })))
        ⊎ ((e : BridgeError) × (commit_pending_save platform text b ≡ (err e, b)))
  unfolding commit_pending_save
  commit_pending_save_lem b text coherent = elim (Result-cases (check_pointer platform text b)) [
    | inr (e, refused) ↦ inr (e, ground (arith, refused))
    | inl ((p, vault), checked) ↦
        let (pending, present, marked, same) =
          check_pointer-eq-ok platform text b p vault checked in
        elim (commit_verified_slot_lem platform vault p.slot) [
          | inl (verified, committed) ↦ inl (
            p,
            vault,
            pending,
            present,
            marked,
            same,
            verified,
            ground (arith, checked, committed),
          )
          | inr (e, refused, kept) ↦ inr (in_vault e, ground (arith, checked, kept, present))
        ]
  ]

  prepare_save-IsCoherent :
      (b : VaultBridge) (rng : R)
      → IsCoherent platform b
      → IsCoherent platform (prepare_save platform b rng).1
  unfolding prepare_save
  prepare_save-IsCoherent b rng coherent p h = elim (Result-cases (ensure_mutable b)) [
    | inr (e, refused) ↦ rw (refused, prepare_save) (coherent p (ground (arith, refused)))
    | inl (vault, allowed) ↦
        let target = other vault.persisted_slot in
        let free = ensure_mutable-eq-ok platform b vault allowed in
        elim (Result-cases (encrypt_for_slot platform vault target rng).0) [
          | inr (e, failed) ↦ absurd (ground (arith, allowed, failed, free))
          | inl (slot, sealed) ↦ elim (Result-cases (plan_save platform target slot)) [
            | inr (e, failed) ↦ absurd (ground (arith, allowed, sealed, failed, free))
            | inl (q, planned) ↦
                let plan = plan_save-eq-ok platform target slot q planned in
                let same : q ≡ p = ground (arith, allowed, sealed, planned) in
                record {
                  vault = vault;
                  present = ground (arith, allowed, sealed, planned, free);
                  verified = λ t. absurd (ground (arith, plan, same, t));
                }
          ]
        ]
  ]

  verify_pending_slot-IsCoherent :
      (b : VaultBridge) (text : String)
      → IsCoherent platform b
      → IsCoherent platform (verify_pending_slot platform text b).1
  unfolding verify_pending_slot
  verify_pending_slot-IsCoherent b text coherent p h =
      elim (Result-cases (check_slot platform text b)) [
        | inr (e, refused) ↦
            rw (refused, verify_pending_slot) (coherent p (ground (arith, refused)))
        | inl (q, checked) ↦
            let (vault, present, pending, verified) = check_slot-eq-ok platform text b q checked in
            let same : q.slot ≡ p.slot = ground (arith, checked) in
            record {
              vault = vault;
              present = ground (arith, checked, present);
              verified = λ t. rw (← same) verified;
            }
      ]

  commit_pending_save-IsCoherent :
      (b : VaultBridge) (text : String)
      → IsCoherent platform b
      → IsCoherent platform (commit_pending_save platform text b).1
  commit_pending_save-IsCoherent b text coherent p h =
      elim (commit_pending_save_lem b text coherent) [
        | inl (_, _, _, _, _, _, _, done) ↦ absurd (ground (arith, done))
        | inr (e, refused) ↦ rw refused (coherent p (ground (arith, refused)))
      ]

  prepare_password_change-IsCoherent :
      (b : VaultBridge) (current new : Bytes) (rng : R)
      → IsCoherent platform b
      → IsCoherent platform (prepare_password_change platform current new b rng).1
  unfolding prepare_password_change
  prepare_password_change-IsCoherent b current new rng coherent =
      same-IsCoherent platform b (prepare_password_change platform current new b rng).1
        (ground arith) (ground arith) coherent

  commit_password_change-IsCoherent :
      (b : VaultBridge) (text : String)
      → IsCoherent platform b
      → IsCoherent platform (commit_password_change platform text b).1
  unfolding commit_password_change
  commit_password_change-IsCoherent b text coherent =
      same-IsCoherent platform b (commit_password_change platform text b).1 (ground arith)
        (ground arith) coherent

  -- No call on a bridge, with whatever texts are handed back, makes a coherent bridge incoherent.
  pub Step-IsCoherent :
      (b b' : VaultBridge) → Step b b' → IsCoherent platform b → IsCoherent platform b'
  unfolding cancel_pending_save cancel_password_change lock
  Step-IsCoherent b _ (prepares _ rng) coherent = prepare_save-IsCoherent b rng coherent
  Step-IsCoherent b _ (verifies _ text) coherent = verify_pending_slot-IsCoherent b text coherent
  Step-IsCoherent b _ (commits _ text) coherent = commit_pending_save-IsCoherent b text coherent
  Step-IsCoherent b _ (cancels _) coherent = λ p h. cc
  Step-IsCoherent b _ (adds base64 _ title secret description now rng) coherent =
      add_entry-IsCoherent platform base64 b title secret description now rng coherent
  Step-IsCoherent b _ (updates base64 _ id title secret description now) coherent =
      update_entry-IsCoherent platform base64 b id title secret description now coherent
  Step-IsCoherent b _ (deletes base64 _ id now) coherent =
      delete_entry-IsCoherent platform base64 b id now coherent
  Step-IsCoherent b _ (prepares_password _ current new rng) coherent =
      prepare_password_change-IsCoherent b current new rng coherent
  Step-IsCoherent b _ (commits_password _ text) coherent =
      commit_password_change-IsCoherent b text coherent
  Step-IsCoherent b _ (cancels_password _) coherent =
      same-IsCoherent platform b (cancel_password_change b) refl refl coherent
  Step-IsCoherent b _ (locks _) coherent = λ p h. cc
