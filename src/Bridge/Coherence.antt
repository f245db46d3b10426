-- ===== src/Bridge/Coherence.antt =====
-- crates/vault-wasm/src/bridge.rs: what the calls keep of a pending save.
use package.pocket_vault.Base.{
  ℕ, ◌≡◌, inl, inr, String, true, Option, some, ok, Result-cases, arith,
}
use package.pocket_vault.Platform.{Platform}
use package.pocket_vault.Encoding.{Base64}
use package.pocket_vault.Vault.{UnlockedVault, verify_next_slot}
use package.pocket_vault.Bridge.State.{PendingSave, VaultBridge, ensure_mutable}
use package.pocket_vault.Bridge.Entries.{add_entry, update_entry, delete_entry}
use package.pocket_vault.Bridge.Checks.{ensure_mutable-eq-ok}

module _ {R : Type 0} (platform : Platform R) where
  -- A pending save is of the session that is there, and if it counts as verified, its slot verifies.
  pub record PendingOf (bridge : VaultBridge) (pending : PendingSave) : Type 0 where
    pub vault : UnlockedVault
    pub present : bridge.vault ≡ some vault
    pub verified :
        pending.slot_verified ≡ true → verify_next_slot platform vault pending.slot ≡ ok tt

  abbrev pub IsCoherent : VaultBridge → Type 0
  IsCoherent bridge =
      (pending : PendingSave) → bridge.pending ≡ some pending → PendingOf bridge pending

  pub same-IsCoherent :
      (b b' : VaultBridge)
      → b'.vault ≡ b.vault
      → b'.pending ≡ b.pending
      → IsCoherent b
      → IsCoherent b'
  same-IsCoherent b b' vault pending coherent p h =
      let old = coherent p (ground (arith, pending, h)) in
      record {
        vault = old.vault;
        present = ground (arith, vault, old.present);
        verified = old.verified;
      }

  -- A call that only a mutable bridge answers leaves no pending save to lose.
  nothing_pending :
      (b b' : VaultBridge) (vault : UnlockedVault)
      → ensure_mutable b ≡ ok vault
      → b'.pending ≡ b.pending
      → IsCoherent b'
  nothing_pending b b' vault allowed same p h =
      absurd (ground (arith, h, same, ensure_mutable-eq-ok platform b vault allowed))

  pub add_entry-IsCoherent :
      (base64 : Base64) (b : VaultBridge) (title secret : String) (description : Option String)
      (now : ℕ) (rng : R)
      → IsCoherent b
      → IsCoherent (add_entry base64 platform title secret description now b rng).1
  unfolding add_entry
  add_entry-IsCoherent base64 b title secret description now rng coherent =
      let after = (add_entry base64 platform title secret description now b rng).1 in
      elim (Result-cases (ensure_mutable b)) [
        | inr (e, refused) ↦
            same-IsCoherent b after (ground (arith, refused)) (ground (arith, refused)) coherent
        | inl (vault, allowed) ↦ nothing_pending b after vault allowed (ground (arith, allowed))
      ]

  pub update_entry-IsCoherent :
      (base64 : Base64) (b : VaultBridge) (id title secret : String) (description : Option String)
      (now : ℕ)
      → IsCoherent b
      → IsCoherent (update_entry base64 id title secret description now b).1
  unfolding update_entry
  update_entry-IsCoherent base64 b id title secret description now coherent =
      let after = (update_entry base64 id title secret description now b).1 in
      elim (Result-cases (ensure_mutable b)) [
        | inr (e, refused) ↦
            same-IsCoherent b after (ground (arith, refused)) (ground (arith, refused)) coherent
        | inl (vault, allowed) ↦ nothing_pending b after vault allowed (ground (arith, allowed))
      ]

  pub delete_entry-IsCoherent :
      (base64 : Base64) (b : VaultBridge) (id : String) (now : ℕ)
      → IsCoherent b
      → IsCoherent (delete_entry base64 id now b).1
  unfolding delete_entry
  delete_entry-IsCoherent base64 b id now coherent =
      let after = (delete_entry base64 id now b).1 in
      elim (Result-cases (ensure_mutable b)) [
        | inr (e, refused) ↦
            same-IsCoherent b after (ground (arith, refused)) (ground (arith, refused)) coherent
        | inl (vault, allowed) ↦ nothing_pending b after vault allowed (ground (arith, allowed))
      ]
