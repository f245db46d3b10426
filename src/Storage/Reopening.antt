-- ===== src/Storage/Reopening.antt =====
-- crates/vault-core/src/storage.rs: the session that `open` returns, and the storage that it leaves.
use package.pocket_vault.Base.{
  ◌≡◌, ◌≢◌, ◌⊎◌, inl, inr, refl, ap, sym, String, Bytes, List, Elem, Option, Result-cases, ok, err,
  arith,
}
use package.pocket_vault.Error.{VaultError}
use package.pocket_vault.Model.{
  other, EncryptedVaultSlotV1, VaultContainerV1, VaultMetaV1, active_slot_eq,
}
use package.pocket_vault.Platform.{Platform}
use package.pocket_vault.Vault.{UnlockedVault}
use package.pocket_vault.Storage.Adapter.{
  DeviceStorage, StorageLaws, slot_key, meta_key, active_slot_key,
}
use package.pocket_vault.Storage.Json.{write_json_verified}
use package.pocket_vault.Storage.Effects.{write_json_verified-peek_ne}
use package.pocket_vault.Storage.Repository.{open_vault, OpenedVault, pointer_to}
use package.pocket_vault.Storage.Reference.{Choice, Shows, repair, open_vault-open_view}
use package.pocket_vault.Storage.Holding.{InStep, InStep-view}
use package.pocket_vault.Storage.SaveSafety.{
  active_slot_key-ne-slot_key, meta_key-ne-active_slot_key,
}
use package.pocket_vault.Storage.Recoverable.{Recoverable, Recoverable-view, Recoverable-OpensTo}
use package.pocket_vault.Storage.Lifecycle.{OpensTo-open_vault}
use package.pocket_vault.Storage.Decision.{session_at, Recoverable-decides}

module _ {R S : Type 0} (platform : Platform R) {store : DeviceStorage S}
    (laws : StorageLaws store) where
  open laws use {peek}

  repair-peek :
      (choice : Choice) (s : S) (j : String)
      → j ≢ active_slot_key
      → peek (repair platform store choice s).1 j ≡ peek s j
  repair-peek choice s j ne = ground (
    arith,
    write_json_verified-peek_ne laws platform.pointer_json active_slot_key
        (pointer_to choice.chosen.0) 1024 s j ne,
  )

  pub repair-eq-ok :
      (choice : Choice) (s : S) (o : OpenedVault)
      → (repair platform store choice s).0 ≡ ok o
      → o.vault ≡ session_at choice
  repair-eq-ok choice s o h = ground arith

  Shows-peek :
      (s : S) (view : String → Option String)
      → Shows platform store s view
      → Shows platform store s (peek s)
  Shows-peek s view shows k =
      let same : view k ≡ peek s k = laws.get_lem k s (view k) (ap (λ r. r.0) (shows k)) in
      rw (← same) (shows k)

  -- Where the reads succeed, `open` keeps the metadata and the slots, and the session that it
  -- returns is in step with the storage that it leaves.
  pub open_vault-Recoverable :
      (password : Bytes) (meta : VaultMetaV1) (vault : UnlockedVault) (s : S)
      (view : String → Option String) (committed : VaultContainerV1) (tried : List VaultContainerV1)
      → Shows platform store s view
      → Recoverable platform (peek s) password meta vault committed tried
      → ((o : OpenedVault) × ((open_vault platform store password s).0 ≡ ok o)
          × ((o.vault.container ≡ committed) ⊎ Elem o.vault.container tried)
          × InStep platform
              (peek (open_vault platform store password s).1)
              password
              meta
              o.vault
              o.vault.container)
        ⊎ ((e : VaultError) × ((open_vault platform store password s).0 ≡ err e)
            × Recoverable platform
                (peek (open_vault platform store password s).1)
                password
                meta
                vault
                committed
                tried)
  open_vault-Recoverable password meta vault s view committed tried shows h =
      let (choice, decided, contents, step) =
        Recoverable-decides platform (peek s) password meta vault committed tried h in
      let runs =
        open_vault-open_view platform store password s (peek s) (Shows-peek s view shows) in
      let same : open_vault platform store password s ≡ repair platform store choice s =
        ground (arith, runs, decided) in
      let view' = peek (open_vault platform store password s).1 in
      let keeps : (j : String) → j ≢ active_slot_key → view' j ≡ peek s j =
        λ j ne. rw same (repair-peek choice s j ne) in
      elim (Result-cases (open_vault platform store password s).0) [
        | inl (o, done) ↦
            let session : o.vault ≡ session_at choice = repair-eq-ok choice s o (rw same at done) in
            inl (
              o,
              done,
              rw session contents,
              rw session (
                  InStep-view platform (peek s) view' password meta (session_at choice)
                    choice.chosen.1 (keeps meta_key meta_key-ne-active_slot_key)
                    (λ place.
                      keeps (slot_key place) (λ e. active_slot_key-ne-slot_key place (sym e)))
                    step),
            )
        | inr (e, refused) ↦ inr (
          e,
          refused,
          Recoverable-view platform (peek s) view' password meta vault committed tried
              (keeps meta_key meta_key-ne-active_slot_key)
              (λ place. keeps (slot_key place) (λ e. active_slot_key-ne-slot_key place (sym e))) h,
        )
      ]

  -- What it returns there, and where it fails.
  pub open_vault-committed :
      (password : Bytes) (meta : VaultMetaV1) (vault : UnlockedVault) (s : S)
      (view : String → Option String) (committed : VaultContainerV1) (tried : List VaultContainerV1)
      → Shows platform store s view
      → Recoverable platform (peek s) password meta vault committed tried
      → ((o : OpenedVault) × ((open_vault platform store password s).0 ≡ ok o)
          × ((o.vault.container ≡ committed) ⊎ Elem o.vault.container tried))
        ⊎ ((e : VaultError) × (slot : EncryptedVaultSlotV1) × ((write_json_verified store
                platform.pointer_json active_slot_key
                (pointer_to slot)
                1024
                s).0
              ≡ err e)
            × ((open_vault platform store password s).0 ≡ err e))
  open_vault-committed password meta vault s view committed tried shows h =
      elim (Recoverable-OpensTo platform (peek s) password meta vault committed tried h) [
        | inl o ↦
            elim (OpensTo-open_vault platform store (peek s) s password vault.dek
              vault.persisted_slot committed (Shows-peek s view shows) o) [
                | inl (repaired, done) ↦ inl (_, done, inl refl)
                | inr stale ↦ inr stale
              ]
        | inr (c, listed, o) ↦
            elim (OpensTo-open_vault platform store (peek s) s password vault.dek
              (other vault.persisted_slot) c (Shows-peek s view shows) o) [
                | inl (repaired, done) ↦ inl (_, done, inr listed)
                | inr stale ↦ inr stale
              ]
      ]
