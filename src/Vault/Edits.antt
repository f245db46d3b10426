-- ===== src/Vault/Edits.antt =====
-- crates/vault-core/src/vault.rs: any sequence of edits of a session.
use package.pocket_vault.Base.{ℕ, List, [], ◌∷◌}
use package.pocket_vault.Model.{EntryId, NewVaultEntry, UpdateVaultEntry}
use package.pocket_vault.Model.Spec.{ContainerIsSound}
use package.pocket_vault.Platform.{Platform}
use package.pocket_vault.Vault.Session.{UnlockedVault}
use package.pocket_vault.Vault.Entries.{add_entry, update_entry, delete_entry}
use package.pocket_vault.Vault.Invariant.{
  add_entry-IsSound, update_entry-IsSound, delete_entry-IsSound,
}

-- A call of the session, with the time that it is given.
pub data Edit : Type 0 where
  adding : NewVaultEntry → ℕ → Edit
  updating : UpdateVaultEntry → ℕ → Edit
  deleting : EntryId → ℕ → Edit

module _ {R : Type 0} (platform : Platform R) where
  -- The session and the random source after a call, failed or not.
  abbrev pub edit : Edit → UnlockedVault → R → UnlockedVault × R
  edit (adding input now) vault rng =
      let (result, vault', rng') = add_entry platform vault input now rng in (vault', rng')
  edit (updating input now) vault rng = ((update_entry input now vault).1, rng)
  edit (deleting id now) vault rng = ((delete_entry id now vault).1, rng)

  unfoldable pub edit_all : List Edit → UnlockedVault → R → UnlockedVault × R
  edit_all [] vault rng = (vault, rng)
  edit_all (e ∷ es) vault rng = let (vault', rng') = edit e vault rng in edit_all es vault' rng'

  pub edit-IsSound :
      (e : Edit) (vault : UnlockedVault) (rng : R)
      → ContainerIsSound vault.container
      → ContainerIsSound (edit e vault rng).0.container
  edit-IsSound (adding input now) vault rng h = add_entry-IsSound platform vault input now rng h
  edit-IsSound (updating input now) vault rng h = update_entry-IsSound input now vault h
  edit-IsSound (deleting id now) vault rng h = delete_entry-IsSound id now vault h

  -- Calls of `add_entry`, `update_entry` and `delete_entry` in any number and order, of which any may
  -- fail, keep the container sound.
  pub edit_all-IsSound :
      (es : List Edit) (vault : UnlockedVault) (rng : R)
      → ContainerIsSound vault.container
      → ContainerIsSound (edit_all es vault rng).0.container
  unfolding edit_all
  edit_all-IsSound [] vault rng h = h
  edit_all-IsSound (e ∷ es) vault rng h =
      edit_all-IsSound es (edit e vault rng).0 (edit e vault rng).1 (edit-IsSound e vault rng h)
