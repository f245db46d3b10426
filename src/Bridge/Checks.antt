-- ===== src/Bridge/Checks.antt =====
-- crates/vault-wasm/src/bridge.rs: what the checks of a call have established when they pass.
use package.pocket_vault.Base.{
  ◌≡◌, inl, inr, String, true, false, none, some, ok, Result-cases, Option-cases, Bool-cases, arith,
  ◌==◌, ==_iff, string_eq,
}
use package.pocket_vault.Model.{SlotId, EncryptedVaultSlotV1, encrypted_slot_eq, active_slot_eq}
use package.pocket_vault.Platform.{Platform}
use package.pocket_vault.Vault.{UnlockedVault, verify_next_slot}
use package.pocket_vault.Bridge.State.{PendingSave, VaultBridge, ensure_mutable}
use package.pocket_vault.Bridge.Saving.{plan_save, check_slot, check_pointer}

module _ {R : Type 0} (platform : Platform R) where
  open platform use {slot_json, pointer_json}

  pub ensure_mutable-eq-ok :
      (b : VaultBridge) (vault : UnlockedVault)
      → ensure_mutable b ≡ ok vault
      → (b.pending ≡ none) × (b.vault ≡ some vault)
  unfolding ensure_mutable
  ensure_mutable-eq-ok b vault h = ground arith

  pub plan_save-eq-ok :
      (target : SlotId) (slot : EncryptedVaultSlotV1) (p : PendingSave)
      → plan_save platform target slot ≡ ok p
      → (p.slot ≡ slot)
        × (p.slot_verified ≡ false)
        × (slot_json.encode slot ≡ some p.slot_json)
        × (pointer_json.encode p.active_pointer ≡ some p.active_pointer_json)
        × (p.active_pointer ≡ record { version = 1; slot = target; generation = slot.generation })
  unfolding plan_save
  plan_save-eq-ok target slot p h = elim (Option-cases (slot_json.encode slot)) [
    | inl failed ↦ absurd (ground (arith, failed))
    | inr (text, encoded) ↦
        elim (Option-cases (
          pointer_json.encode
            (record { version = 1; slot = target; generation = slot.generation }))) [
              | inl failed ↦ absurd (ground (arith, encoded, failed))
              | inr (pointer_text, pointed) ↦ ground (arith, encoded, pointed)
            ]
  ]

  pub check_slot-eq-ok :
      (text : String) (b : VaultBridge) (p : PendingSave)
      → check_slot platform text b ≡ ok p
      → (vault : UnlockedVault) × (b.vault ≡ some vault)
        × (b.pending ≡ some p)
        × (verify_next_slot platform vault p.slot ≡ ok tt)
  unfolding check_slot
  check_slot-eq-ok text b p h = elim (Option-cases b.vault) [
    | inl absent ↦ absurd (ground (arith, absent))
    | inr (vault, present) ↦ elim (Option-cases b.pending) [
      | inl none_pending ↦ absurd (ground (arith, present, none_pending))
      | inr (q, pending) ↦ elim (Option-cases (slot_json.decode text)) [
        | inl failed ↦ absurd (ground (arith, present, pending, failed))
        | inr (slot, decoded) ↦ elim (Result-cases (verify_next_slot platform vault slot)) [
          | inr (e, refused) ↦ absurd (ground (arith, present, pending, decoded, refused))
          | inl (done, verified) ↦
              let same : q ≡ p =
                ground (arith, present, pending, decoded, verified, ==_iff slot q.slot) in
              let read : slot ≡ q.slot =
                ground (arith, present, pending, decoded, verified, ==_iff slot q.slot) in
              (vault, present, rw (← same) pending, rw (← same, ← read) verified)
        ]
      ]
    ]
  ]

  -- The text that was handed back is the one that was prepared.
  pub check_slot-text :
      (text : String) (b : VaultBridge) (p : PendingSave)
      → check_slot platform text b ≡ ok p
      → text ≡ p.slot_json
  unfolding check_slot
  check_slot-text text b p h = elim (Option-cases b.vault) [
    | inl absent ↦ absurd (ground (arith, absent))
    | inr (vault, present) ↦ elim (Option-cases b.pending) [
      | inl none_pending ↦ absurd (ground (arith, present, none_pending))
      | inr (q, pending) ↦ elim (Bool-cases (text == q.slot_json)) [
        | inr differs ↦ absurd (ground (arith, present, pending, differs))
        | inl read ↦
            let (_, _, pending', _) = check_slot-eq-ok text b p h in
            ground (arith, pending, pending', (==_iff text q.slot_json).0 read)
      ]
    ]
  ]

  pub check_pointer-eq-ok :
      (text : String) (b : VaultBridge) (p : PendingSave) (vault : UnlockedVault)
      → check_pointer platform text b ≡ ok (p, vault)
      → (b.pending ≡ some p)
        × (b.vault ≡ some vault)
        × (p.slot_verified ≡ true)
        × (text ≡ p.active_pointer_json)
  unfolding check_pointer
  check_pointer-eq-ok text b p vault h = elim (Option-cases b.pending) [
    | inl none_pending ↦ absurd (ground (arith, none_pending))
    | inr (q, pending) ↦ elim (Option-cases (pointer_json.decode text)) [
      | inl failed ↦ absurd (ground (arith, pending, failed))
      | inr (pointer, decoded) ↦ elim (Option-cases b.vault) [
        | inl absent ↦ absurd (ground (arith, pending, decoded, absent))
        | inr (v, present) ↦
            ground (arith, pending, decoded, present, ==_iff text q.active_pointer_json)
      ]
    ]
  ]
