-- ===== src/Bridge/JournalOpen.antt =====
-- crates/vault-wasm/src/bridge.rs: a bridge that `open` returns in the middle of a history.
use package.pocket_vault.Base.{◌≡◌, inl, inr, refl, Bytes, List, [], some, ok, arith, Result-cases}
use package.pocket_vault.Model.{VaultMetaV1, VaultContainerV1}
use package.pocket_vault.Platform.{Platform}
use package.pocket_vault.Vault.{UnlockedVault}
use package.pocket_vault.Storage.{memory_storage, memory_storage_laws, open_vault}
use package.pocket_vault.Storage.Reference.{repair, open_vault-open_view}
use package.pocket_vault.Storage.Recoverable.{InStep-Recoverable}
use package.pocket_vault.Storage.Reopening.{repair-eq-ok}
use package.pocket_vault.Storage.Decision.{session_at, Recoverable-decides}
use package.pocket_vault.Bridge.State.{VaultBridge}
use package.pocket_vault.Bridge.Opening.{StorageSnapshot, OpenBundle, open_session, load}
use package.pocket_vault.Bridge.Loading.{view_of, Shows-view_of, stored_meta, session_of}
use package.pocket_vault.Bridge.Journal.{Journal}

module _ {R : Type 0} (platform : Platform R) (password : Bytes) (meta : VaultMetaV1)
    (b : VaultBridge) (s : StorageSnapshot) (committed : VaultContainerV1)
    (tried : List VaultContainerV1) (j : Journal platform password meta b s committed tried) where
  -- It is in step with the storage, without a pending save.
  pub open_session-Journal :
      (bundle : OpenBundle) (v : UnlockedVault)
      → open_session platform password s ≡ ok bundle
      → bundle.session.vault ≡ some v
      → Journal platform password meta bundle.session s v.container []
  unfolding open_session
  open_session-Journal bundle v opens present =
      let (text, there, decoded) =
        stored_meta platform s meta j.recoverable.held.meta_in.readable in
      let (choice, decided, _, step) =
        Recoverable-decides platform (view_of s) password meta j.vault committed tried
          j.recoverable in
      let runs =
        open_vault-open_view platform memory_storage password (load s) (view_of s)
          (Shows-view_of platform s) in
      let same : open_vault platform memory_storage password (load s)
          ≡ repair platform memory_storage choice (load s) =
        ground (arith, runs, decided) in
      elim (Result-cases (open_vault platform memory_storage password (load s)).0) [
        | inr (e, failed) ↦ absurd (ground (arith, there, decoded, failed))
        | inl (o, opened) ↦
            let session : o.vault ≡ session_at choice =
              repair-eq-ok platform memory_storage_laws choice (load s) o (rw same at opened) in
            let returned : bundle.session ≡ session_of o.vault meta =
              ground (arith, there, decoded, opened) in
            let found : v ≡ session_at choice = ground (arith, returned, present, session) in
            rw (returned, session, found)
              (record {
                vault = session_at choice;
                present = refl;
                recoverable =
                    InStep-Recoverable platform (view_of s) password meta (session_at choice)
                      choice.chosen.1 step;
                pending = λ p h. absurd (cc);
              })
      ]
