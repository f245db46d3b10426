-- ===== src/Storage/History.antt =====
-- crates/vault-core/src/storage.rs and vault.rs: a session's edits and saves, one after another,
-- and what opening its storage returns.
use package.pocket_vault.Base.{
  ◌+◌, ◌≡◌, ◌⊎◌, inl, inr, String, Bytes, List, [], ◌∷◌, Elem, Option, ok, err, arith,
}
use package.pocket_vault.Error.{VaultError}
use package.pocket_vault.Model.{EncryptedVaultSlotV1, VaultContainerV1, VaultMetaV1}
use package.pocket_vault.Platform.{Platform, PlatformLaws}
use package.pocket_vault.Vault.{UnlockedVault, at_generation}
use package.pocket_vault.Vault.Edits.{Edit, edit}
use package.pocket_vault.Storage.Adapter.{active_slot_key, DeviceStorage, StorageLaws}
use package.pocket_vault.Storage.Repository.{save, open_vault, OpenedVault, pointer_to}
use package.pocket_vault.Storage.Json.{write_json_verified}
use package.pocket_vault.Storage.Reference.{Shows}
use package.pocket_vault.Storage.Recoverable.{
  Recoverable, InStep-Recoverable, edit-Recoverable, failed-Recoverable,
}
use package.pocket_vault.Storage.Reopening.{open_vault-Recoverable, open_vault-committed}
use package.pocket_vault.Storage.Holding.{InStep, kept}
use package.pocket_vault.Storage.Crash.{Holds-save-InStep}

module _ {R S : Type 0} (platform : Platform R) (store : DeviceStorage S) (password : Bytes) where
  -- What a session and its storage come to, with the container last saved and those that saves have
  -- tried to write since: an edit changes the session, whether it succeeds or not; a save that fails,
  -- anywhere, leaves the session; a save that finishes commits the session's container; opening the
  -- storage, where its reads succeed, drops the session for the one that it returns, or fails.
  pub data History (vault : UnlockedVault) (s : S) (committed : VaultContainerV1)
      : UnlockedVault → S → VaultContainerV1 → List VaultContainerV1 → Type 0 where
    begins : History vault s committed vault s committed []
    edited :
        (v : UnlockedVault) (t : S) (c : VaultContainerV1) (tried : List VaultContainerV1)
        → History vault s committed v t c tried
        → (e : Edit) (rng : R) → History vault s committed (edit platform e v rng).0 t c tried
    failed :
        (v : UnlockedVault) (t : S) (c : VaultContainerV1) (tried : List VaultContainerV1)
        → History vault s committed v t c tried
        → (rng : R) (e : VaultError) → (save platform store v rng t).0 ≡ err e
        → History vault s committed
            (save platform store v rng t).1
            (save platform store v rng t).3
            c
            (at_generation v.container (v.container.generation + 1) ∷ tried)
    saved :
        (v : UnlockedVault) (t : S) (c : VaultContainerV1) (tried : List VaultContainerV1)
        → History vault s committed v t c tried
        → (rng : R) → (save platform store v rng t).0 ≡ ok tt
        → History vault s committed
            (save platform store v rng t).1
            (save platform store v rng t).3
            (at_generation v.container (v.container.generation + 1))
            []
    reopened :
        (v : UnlockedVault) (t : S) (c : VaultContainerV1) (tried : List VaultContainerV1)
        → History vault s committed v t c tried
        → (view : String → Option String) → Shows platform store t view
        → (o : OpenedVault) → (open_vault platform store password t).0 ≡ ok o
        → History vault s committed o.vault
            (open_vault platform store password t).1
            o.vault.container
            []
    refused :
        (v : UnlockedVault) (t : S) (c : VaultContainerV1) (tried : List VaultContainerV1)
        → History vault s committed v t c tried
        → (view : String → Option String) → Shows platform store t view
        → (e : VaultError) → (open_vault platform store password t).0 ≡ err e
        → History vault s committed v (open_vault platform store password t).1 c tried

  module _ (promises : PlatformLaws platform) (laws : StorageLaws store) where
    open laws use {peek}

    History-Recoverable :
        (meta : VaultMetaV1) (vault : UnlockedVault) (s : S) (committed : VaultContainerV1)
        (v : UnlockedVault) (t : S) (c : VaultContainerV1) (tried : List VaultContainerV1)
        → InStep platform (peek s) password meta vault committed
        → History vault s committed v t c tried
        → Recoverable platform (peek t) password meta v c tried
    History-Recoverable meta vault s committed _ _ _ _ h begins =
        InStep-Recoverable platform (peek s) password meta vault committed h
    History-Recoverable meta vault s committed _ t c tried h (edited v _ _ _ past e rng) =
        edit-Recoverable platform (peek t) password meta v c tried e rng
          (History-Recoverable meta vault s committed v t c tried h past)
    History-Recoverable meta vault s committed _ _ c _ h (failed v t _ tried past rng e stopped) =
        failed-Recoverable platform promises laws password meta v rng t c tried e stopped
          (History-Recoverable meta vault s committed v t c tried h past)
    History-Recoverable meta vault s committed _ _ _ _ h (saved v t c tried past rng done) =
        let before = History-Recoverable meta vault s committed v t c tried h past in
        InStep-Recoverable platform (peek (save platform store v rng t).3) password meta
          (save platform store v rng t).1 (at_generation v.container (v.container.generation + 1))
          (Holds-save-InStep platform promises laws v rng t password meta c before.held done)
    History-Recoverable meta vault s committed _ _ _ _ h
          (reopened v t c tried past view shows o returned) =
        elim (open_vault-Recoverable platform laws password meta v t view c tried shows
          (History-Recoverable meta vault s committed v t c tried h past)) [
            | inl (o', returned', _, step) ↦
                let same : o' ≡ o = ground (arith) in
                let step' : InStep platform (peek (open_vault platform store password t).1) password
                    meta o.vault o.vault.container =
                  rw same at step in
                InStep-Recoverable platform (peek (open_vault platform store password t).1) password
                  meta o.vault o.vault.container step'
            | inr (e, stopped, _) ↦ absurd (cc)
          ]
    History-Recoverable meta vault s committed _ _ _ _ h
          (refused v t c tried past view shows e stopped) =
        elim (open_vault-Recoverable platform laws password meta v t view c tried shows
          (History-Recoverable meta vault s committed v t c tried h past)) [
            | inl (o, returned, _, _) ↦ absurd (cc)
            | inr (_, _, kept) ↦ kept
          ]

    -- A session that is in step with its storage is edited, saved and opened again in any order,
    -- where each save may fail at any point and is followed by further steps, and each opening
    -- reads the storage without an error, whether it returns a session or fails. Where the storage
    -- can be read after that, opening it returns the container of the last save that finished or of
    -- the last session that was opened, or one that a save has tried to write since; it fails only
    -- where it cannot rewrite the pointer.
    pub history_recovers :
        (meta : VaultMetaV1) (vault : UnlockedVault) (s : S) (committed : VaultContainerV1)
        (v : UnlockedVault) (t : S) (c : VaultContainerV1) (tried : List VaultContainerV1)
        (view : String → Option String)
        → InStep platform (peek s) password meta vault committed
        → History vault s committed v t c tried
        → Shows platform store t view
        → ((o : OpenedVault) × ((open_vault platform store password t).0 ≡ ok o)
            × ((o.vault.container ≡ c) ⊎ Elem o.vault.container tried))
          ⊎ ((e : VaultError) × (slot : EncryptedVaultSlotV1) × ((write_json_verified store
                  platform.pointer_json active_slot_key
                  (pointer_to slot)
                  1024
                  t).0
                ≡ err e)
              × ((open_vault platform store password t).0 ≡ err e))
    history_recovers meta vault s committed v t c tried view h past shows =
        open_vault-committed platform laws password meta v t view c tried shows
          (History-Recoverable meta vault s committed v t c tried h past)
