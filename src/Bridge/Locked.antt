-- ===== src/Bridge/Locked.antt =====
-- crates/vault-wasm/src/bridge.rs: the calls that may follow `lock`.
use package.pocket_vault.Base.{◌≡◌, refl, ap, String, true, none, err}
use package.pocket_vault.Platform.{Platform}
use package.pocket_vault.Encoding.{Base64}
use package.pocket_vault.Bridge.State.{
  BridgeError, VaultBridge, locked, ensure_mutable, cancel_pending_save, cancel_password_change,
  lock, is_locked,
}
use package.pocket_vault.Bridge.Saving.{
  prepare_save, check_slot, verify_pending_slot, check_pointer, commit_pending_save,
  prepare_password_change, check_metadata, commit_password_change,
}
use package.pocket_vault.Bridge.Entries.{
  Payloads, list_entries_json, get_entry_json, get_entry_details_json, get_entry_secret, add_entry,
  update_entry, delete_entry,
}
use package.pocket_vault.Bridge.TwoPhase.{
  Step, prepares, verifies, commits, cancels, adds, updates, deletes, prepares_password,
  commits_password, cancels_password, locks,
}
use package.pocket_vault.Bridge.Steps.{Steps, done, next}
use package.pocket_vault.Bridge.Refusals.{lock_closes}

abbrev closed : VaultBridge
closed = record { vault = none; metadata = none; pending = none; pending_password_change = none }

module _ {R : Type 0} (platform : Platform R) where
  Step-closed : (b b' : VaultBridge) → Step platform b b' → b ≡ closed → b' ≡ closed
  unfolding prepare_save ensure_mutable verify_pending_slot check_slot commit_pending_save
      check_pointer cancel_pending_save add_entry update_entry delete_entry prepare_password_change
      commit_password_change check_metadata cancel_password_change lock
  Step-closed b _ (prepares _ rng) h = ap (λ x. (prepare_save platform x rng).1) h
  Step-closed b _ (verifies _ text) h = ap (λ x. (verify_pending_slot platform text x).1) h
  Step-closed b _ (commits _ text) h = ap (λ x. (commit_pending_save platform text x).1) h
  Step-closed b _ (cancels _) h = ap cancel_pending_save h
  Step-closed b _ (adds base64 _ title secret description now rng) h =
      ap (λ x. (add_entry base64 platform title secret description now x rng).1) h
  Step-closed b _ (updates base64 _ id title secret description now) h =
      ap (λ x. (update_entry base64 id title secret description now x).1) h
  Step-closed b _ (deletes base64 _ id now) h = ap (λ x. (delete_entry base64 id now x).1) h
  Step-closed b _ (prepares_password _ current new rng) h =
      ap (λ x. (prepare_password_change platform current new x rng).1) h
  Step-closed b _ (commits_password _ text) h =
      ap (λ x. (commit_password_change platform text x).1) h
  Step-closed b _ (cancels_password _) h = ap cancel_password_change h
  Step-closed b _ (locks _) h = refl

  Steps-closed : (b b' : VaultBridge) → Steps platform b b' → b ≡ closed → b' ≡ closed
  Steps-closed b _ (done _) h = h
  Steps-closed b b' (next _ c _ step rest) h = Steps-closed c b' rest (Step-closed b c step h)

  -- After `lock`, whatever calls follow it, the bridge is locked, holds nothing that it held
  -- before, and each call that reads entries fails.
  pub locked_for_good :
      (b b' : VaultBridge) (base64 : Base64) (payloads : Payloads) (id : String)
      → Steps platform (lock b) b'
      → (b' ≡ record {
        vault = none;
        metadata = none;
        pending = none;
        pending_password_change = none;
      })
        × (is_locked b' ≡ true)
        × (list_entries_json base64 payloads b' ≡ err locked)
        × ((e : BridgeError) × (get_entry_json base64 payloads id b' ≡ err e)
            × (get_entry_details_json base64 payloads id b' ≡ err e)
            × (get_entry_secret base64 id b' ≡ err e))
  unfolding lock
  locked_for_good b b' base64 payloads id steps =
      let same = Steps-closed (lock b) b' steps refl in
      let (shut, listing, reads) = lock_closes base64 b payloads id in
      (same, rw same shut, rw same listing, rw same reads)
