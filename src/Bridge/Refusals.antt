-- ===== src/Bridge/Refusals.antt =====
-- crates/vault-wasm/src/bridge.rs: the calls on a bridge that is busy or locked.
use package.pocket_vault.Base.{
  some, ◌⊎◌, ◌≡◌, refl, ap, String, true, none, Option-cases, Result-cases, inl, inr, ok, err,
  arith, ==_iff, string_eq,
}
use package.pocket_vault.Model.{VaultMetaV1, vault_meta_eq}
use package.pocket_vault.Platform.{Platform}
use package.pocket_vault.Encoding.{Base64}
use package.pocket_vault.Vault.{UnlockedVault, verify_next_slot}
use package.pocket_vault.Vault.Commits.{advanced}
use package.pocket_vault.Bridge.State.{
  PendingSave, PendingPasswordChange, save_pending, BridgeError, VaultBridge, locked,
  ensure_mutable, cancel_pending_save, cancel_password_change, lock, is_locked,
}
use package.pocket_vault.Bridge.Saving.{
  prepare_save, check_slot, verify_pending_slot, prepare_password_change, check_metadata,
  commit_password_change,
}
use package.pocket_vault.Bridge.Entries.{
  Payloads, parse_entry_id, entry, list_entries_json, get_entry_json, get_entry_details_json,
  get_entry_secret, add_entry, update_entry, delete_entry,
}
use package.pocket_vault.Bridge.Checks.{check_slot-eq-ok, check_slot-text}
use package.pocket_vault.Bridge.Coherence.{IsCoherent}
use package.pocket_vault.Bridge.TwoPhase.{
  Step, prepares, verifies, commits, cancels, adds, updates, deletes, prepares_password,
  commits_password, cancels_password, locks, commit_pending_save_lem,
}

-- A save or a password change is pending.
abbrev pub IsBusy : VaultBridge → Type 0
IsBusy b =
    ((p : PendingSave) × (b.pending ≡ some p))
    ⊎ ((p : PendingPasswordChange) × (b.pending_password_change ≡ some p))

IsBusy-ensure_mutable : (b : VaultBridge) → IsBusy b → ensure_mutable b ≡ err save_pending
unfolding ensure_mutable
IsBusy-ensure_mutable b h = ground arith

module _ {R : Type 0} (platform : Platform R) where
  -- What each call may do while something is pending.
  abbrev pub Allowed : (b b' : VaultBridge) → Step platform b b' → Type 0
  Allowed b b' (prepares _ rng) = b' ≡ b
  Allowed b b' (prepares_password _ current new rng) = b' ≡ b
  Allowed b b' (adds base64 _ title secret description now rng) = b' ≡ b
  Allowed b b' (updates base64 _ id title secret description now) = b' ≡ b
  Allowed b b' (deletes base64 _ id now) = b' ≡ b
  Allowed b b' (verifies _ text) =
      (b' ≡ b)
      ⊎ ((p : PendingSave) × (vault : UnlockedVault) × (b.pending ≡ some p)
          × (b.vault ≡ some vault)
          × (text ≡ p.slot_json)
          × (verify_next_slot platform vault p.slot ≡ ok tt)
          × (b' ≡ record b { pending = some (record p { slot_verified = true }) }))
  Allowed b b' (commits _ text) =
      (b' ≡ b)
      ⊎ ((p : PendingSave) × (vault : UnlockedVault) × (b.pending ≡ some p)
          × (b.vault ≡ some vault)
          × (p.slot_verified ≡ true)
          × (text ≡ p.active_pointer_json)
          × (b' ≡ record b { vault = some (advanced vault); pending = none }))
  Allowed b b' (commits_password _ text) =
      (b' ≡ b)
      ⊎ ((p : PendingPasswordChange) × (b.pending_password_change ≡ some p)
          × (text ≡ p.metadata_json)
          × (b' ≡ record b { metadata = some p.metadata; pending_password_change = none }))
  Allowed b b' (cancels _) = b' ≡ record b { pending = none }
  Allowed b b' (cancels_password _) = b' ≡ record b { pending_password_change = none }
  Allowed b b' (locks _) =
      b' ≡ record { vault = none; metadata = none; pending = none; pending_password_change = none }

  verify_pending_slot-Allowed :
      (b : VaultBridge) (text : String)
      → Allowed b (verify_pending_slot platform text b).1 (verifies b text)
  unfolding verify_pending_slot
  verify_pending_slot-Allowed b text = elim (Result-cases (check_slot platform text b)) [
    | inr (e, refused) ↦ inl (ground (arith, refused))
    | inl (p, checked) ↦
        let (vault, present, pending, verified) = check_slot-eq-ok platform text b p checked in
        inr (
          p,
          vault,
          pending,
          present,
          check_slot-text platform text b p checked,
          verified,
          ground (arith, checked),
        )
  ]

  check_metadata-eq-ok :
      (text : String) (b : VaultBridge) (meta : VaultMetaV1)
      → check_metadata platform text b ≡ ok meta
      → (p : PendingPasswordChange) × (b.pending_password_change ≡ some p)
        × (text ≡ p.metadata_json)
        × (meta ≡ p.metadata)
  unfolding check_metadata
  check_metadata-eq-ok text b meta h = elim (Option-cases b.pending_password_change) [
    | inl idle ↦ absurd (ground (arith, idle))
    | inr (p, pending) ↦ elim (Option-cases (platform.meta_json.decode text)) [
      | inl failed ↦ absurd (ground (arith, pending, failed))
      | inr (read, decoded) ↦ (
        p,
        pending,
        ground (arith, pending, decoded, ==_iff text p.metadata_json),
        ground (arith, pending, decoded),
      )
    ]
  ]

  commit_password_change-Allowed :
      (b : VaultBridge) (text : String)
      → Allowed b (commit_password_change platform text b).1 (commits_password b text)
  unfolding commit_password_change
  commit_password_change-Allowed b text = elim (Result-cases (check_metadata platform text b)) [
    | inr (e, refused) ↦ inl (ground (arith, refused))
    | inl (meta, checked) ↦
        let (p, pending, handed, same) = check_metadata-eq-ok text b meta checked in
        inr (p, pending, handed, ground (arith, checked, same))
  ]

  -- While a save or a password change is pending on a coherent bridge, a call that edits or prepares
  -- something else leaves the bridge as it is, whatever its arguments. `verify_pending_slot` marks
  -- the pending slot, and only if it is given the slot's text and the session accepts the slot;
  -- `commit_pending_save` moves the session to the pending slot and ends the save, and only if the
  -- slot is marked and it is given the pointer's text; `commit_password_change` takes the pending
  -- metadata over, and only if it is given their text; where they do not, nothing changes. A cancel
  -- drops what is pending and keeps the session, and `lock` forgets everything.
  pub only_commits_while_busy :
      (b b' : VaultBridge) (step : Step platform b b')
      → IsCoherent platform b
      → IsBusy b
      → Allowed b b' step
  unfolding prepare_save prepare_password_change add_entry update_entry delete_entry
      cancel_pending_save cancel_password_change lock
  only_commits_while_busy b _ (prepares _ rng) coherent busy =
      ground (arith, IsBusy-ensure_mutable b busy)
  only_commits_while_busy b _ (prepares_password _ current new rng) coherent busy =
      ground (arith, IsBusy-ensure_mutable b busy)
  only_commits_while_busy b _ (adds base64 _ title secret description now rng) coherent busy =
      ground (arith, IsBusy-ensure_mutable b busy)
  only_commits_while_busy b _ (updates base64 _ id title secret description now) coherent busy =
      ground (arith, IsBusy-ensure_mutable b busy)
  only_commits_while_busy b _ (deletes base64 _ id now) coherent busy =
      ground (arith, IsBusy-ensure_mutable b busy)
  only_commits_while_busy b _ (verifies _ text) coherent busy = verify_pending_slot-Allowed b text
  only_commits_while_busy b _ (commits _ text) coherent busy =
      elim (commit_pending_save_lem platform b text coherent) [
        | inl (p, vault, pending, present, marked, handed, _, done) ↦
            inr (p, vault, pending, present, marked, handed, ap (λ r. r.1) done)
        | inr (e, refused) ↦ inl (ap (λ r. r.1) refused)
      ]
  only_commits_while_busy b _ (commits_password _ text) coherent busy =
      commit_password_change-Allowed b text
  only_commits_while_busy b _ (cancels _) coherent busy = refl
  only_commits_while_busy b _ (cancels_password _) coherent busy = refl
  only_commits_while_busy b _ (locks _) coherent busy = refl

-- A locked bridge is closed to each call that reads it.
pub lock_closes :
    (base64 : Base64) (bridge : VaultBridge) (payloads : Payloads) (id : String)
    → (is_locked (lock bridge) ≡ true)
      × (list_entries_json base64 payloads (lock bridge) ≡ err locked)
      × ((e : BridgeError) × (get_entry_json base64 payloads id (lock bridge) ≡ err e)
          × (get_entry_details_json base64 payloads id (lock bridge) ≡ err e)
          × (get_entry_secret base64 id (lock bridge) ≡ err e))
unfolding lock is_locked list_entries_json get_entry_json get_entry_details_json get_entry_secret
    entry
lock_closes base64 bridge payloads id = (
  refl,
  refl,
  elim (Result-cases (parse_entry_id base64 id)) [
    | inr (e, refused) ↦
        (e, ground (arith, refused), ground (arith, refused), ground (arith, refused))
    | inl (entry_id, parsed) ↦
        (locked, ground (arith, parsed), ground (arith, parsed), ground (arith, parsed))
  ],
)
