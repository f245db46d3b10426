-- ===== src/Storage/Save.antt =====
-- crates/vault-core/src/storage.rs: what `save` does to the session and to the stored values.
use package.pocket_vault.Base.{
  ℕ, ◌+◌, ◌≡◌, ◌≢◌, ◌⊎◌, inl, inr, sym, String, ok, err, Result-cases, arith,
}
use package.pocket_vault.Error.{VaultError}
use package.pocket_vault.Model.{other, EncryptedVaultSlotV1}
use package.pocket_vault.Platform.{Platform}
use package.pocket_vault.Vault.{
  UnlockedVault, next_generation, encrypt_for_slot_at_generation, commit_verified_slot,
}
use package.pocket_vault.Vault.Commits.{advanced, commit_verified_slot_lem}
use package.pocket_vault.Storage.Adapter.{
  DeviceStorage, StorageLaws, slot_key, meta_key, active_slot_key,
}
use package.pocket_vault.Storage.SaveSafety.{
  Published, persist-peek_ne, persist-Published, persist-eq-ok, active_slot_key-ne-slot_key,
  meta_key-ne-slot_key, meta_key-ne-active_slot_key, slot_key-ne-other,
}
use package.pocket_vault.Storage.Repository.{persist, save}

pub next_generation-eq-ok :
    (vault : UnlockedVault) (next : ℕ)
    → next_generation vault ≡ ok next
    → next ≡ vault.container.generation + 1
next_generation-eq-ok vault next h = ground arith

module _ {R S : Type 0} (platform : Platform R) {store : DeviceStorage S}
    (laws : StorageLaws store) where
  open laws use {peek}

  -- Past the encryption, the storage is what `persist` left, and the rest follows its result.
  pub save-persist :
      (vault : UnlockedVault) (rng : R) (s : S) (next : ℕ) (slot : EncryptedVaultSlotV1)
      → next_generation vault ≡ ok next
      → (encrypt_for_slot_at_generation platform vault (other vault.persisted_slot) next rng).0
        ≡ ok slot
      → ((save platform store vault rng s).3
          ≡ (persist platform store vault (other vault.persisted_slot) next slot s).1)
        × ((e : VaultError)
            → (persist platform store vault (other vault.persisted_slot) next slot s).0 ≡ err e
            → ((save platform store vault rng s).0 ≡ err e)
              × ((save platform store vault rng s).1 ≡ vault))
        × ((stored : EncryptedVaultSlotV1)
            → (persist platform store vault (other vault.persisted_slot) next slot s).0 ≡ ok stored
            → ((save platform store vault rng s).0 ≡ (commit_verified_slot platform stored vault).0)
              × ((save platform store vault rng s).1
                  ≡ (commit_verified_slot platform stored vault).1))
  unfolding save
  save-persist vault rng s next slot grown sealed = (
    ground (arith, grown, sealed),
    λ e h. ground (arith, grown, sealed, h),
    λ stored h. ground (arith, grown, sealed, h),
  )

  pub save-peek_ne :
      (vault : UnlockedVault) (rng : R) (s : S) (j : String)
      → j ≢ slot_key (other vault.persisted_slot)
      → j ≢ active_slot_key
      → peek (save platform store vault rng s).3 j ≡ peek s j
  unfolding save
  save-peek_ne vault rng s j ne ne' =
      let target = other vault.persisted_slot in
      elim (Result-cases (next_generation vault)) [
        | inr (e, failed) ↦ ground (arith, failed)
        | inl (next, grown) ↦
            elim (Result-cases (encrypt_for_slot_at_generation platform vault target next rng).0) [
              | inr (e, failed) ↦ ground (arith, grown, failed)
              | inl (slot, sealed) ↦ ground (
                arith,
                grown,
                sealed,
                persist-peek_ne platform laws vault target next slot s j ne ne',
              )
            ]
      ]

  -- Whatever the outcome of a save, with any failures of the storage, the metadata and the slot that
  -- the session was last committed to have the texts that they had.
  pub save_keeps_committed :
      (vault : UnlockedVault) (rng : R) (s : S)
      → (peek (save platform store vault rng s).3 meta_key ≡ peek s meta_key)
        × (peek (save platform store vault rng s).3 (slot_key vault.persisted_slot)
            ≡ peek s (slot_key vault.persisted_slot))
  save_keeps_committed vault rng s =
      let place = vault.persisted_slot in
      (
        save-peek_ne vault rng s meta_key (meta_key-ne-slot_key (other place))
            meta_key-ne-active_slot_key,
        save-peek_ne vault rng s (slot_key place) (slot_key-ne-other place)
            (λ e. active_slot_key-ne-slot_key place (sym e)),
      )

  -- Whatever the outcome of a save, the stored pointer has its old text, or it names the inactive
  -- slot at the next generation and that slot is already stored and verifies.
  pub save_orders_writes :
      (vault : UnlockedVault) (rng : R) (s : S)
      → (peek (save platform store vault rng s).3 active_slot_key ≡ peek s active_slot_key)
        ⊎ Published platform laws vault
            (other vault.persisted_slot)
            (vault.container.generation + 1)
            (save platform store vault rng s).3
  unfolding save
  save_orders_writes vault rng s =
      let target = other vault.persisted_slot in
      elim (Result-cases (next_generation vault)) [
        | inr (e, failed) ↦ inl (ground (arith, failed))
        | inl (next, grown) ↦
            elim (Result-cases (encrypt_for_slot_at_generation platform vault target next rng).0) [
              | inr (e, failed) ↦ inl (ground (arith, grown, failed))
              | inl (slot, sealed) ↦
                  rw
                    (
                      (save-persist vault rng s next slot grown sealed).0,
                      ← next_generation-eq-ok vault next grown,
                    )
                    (persist-Published platform laws vault target next slot s)
            ]
      ]

  -- A successful save moves the session to the inactive slot at the next generation, with the same
  -- contents, and that slot and the pointer to it are stored; a failed save leaves the session alone.
  pub save_result :
      (vault : UnlockedVault) (rng : R) (s : S)
      → (((save platform store vault rng s).0 ≡ ok tt)
          × ((save platform store vault rng s).1 ≡ advanced vault)
          × Published platform laws vault
              (other vault.persisted_slot)
              (vault.container.generation + 1)
              (save platform store vault rng s).3)
        ⊎ ((e : VaultError) × ((save platform store vault rng s).0 ≡ err e)
            × ((save platform store vault rng s).1 ≡ vault))
  unfolding save
  save_result vault rng s =
      let target = other vault.persisted_slot in
      elim (Result-cases (next_generation vault)) [
        | inr (e, failed) ↦ inr (e, ground (arith, failed), ground (arith, failed))
        | inl (next, grown) ↦
            elim (Result-cases (encrypt_for_slot_at_generation platform vault target next rng).0) [
              | inr (e, failed) ↦
                  inr (e, ground (arith, grown, failed), ground (arith, grown, failed))
              | inl (slot, sealed) ↦
                  let step = save-persist vault rng s next slot grown sealed in
                  let p = persist platform store vault target next slot s in
                  elim (Result-cases p.0) [
                    | inr (e, failed) ↦ inr (e, (step.1 e failed).0, (step.1 e failed).1)
                    | inl (stored, done) ↦
                        let (published, same) =
                          persist-eq-ok platform laws vault target next slot stored s p.1
                            (ground (arith, done)) in
                        elim (commit_verified_slot_lem platform vault stored) [
                          | inl (_, committed) ↦ inl (
                            ground (arith, step.2 stored done, committed),
                            ground (arith, step.2 stored done, committed),
                            rw (step.0, ← next_generation-eq-ok vault next grown) published,
                          )
                          | inr (e, refused, _) ↦
                              absurd (ground (arith, refused, published.verified, same))
                        ]
                  ]
            ]
      ]
