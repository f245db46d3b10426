-- ===== src/Vault/EntryMap.antt =====
-- The session of crates/vault-core/src/vault.rs as a map from identifiers to entries.
use Prim.Native.Nat.{max}
use mathlib.Core.Option
use package.pocket_vault.Base.{
  ℕ, ◌≡◌, ◌↔◌, refl, List, [], ◌∷◌, ◌++◌, Option, none, some, arith, ok, Option-cases, Result-cases,
  inl, inr, position, find, modify_first, remove_at, ◌==◌, ==_iff, if◌then◌else◌,
}
use package.pocket_vault.Model.{EntryId, entry_id_eq, VaultEntry, NewVaultEntry, UpdateVaultEntry}
use package.pocket_vault.Model.Spec.{Absent, DistinctIds, ContainerIsSound}
use package.pocket_vault.Platform.{Platform}
use package.pocket_vault.Vault.Session.{UnlockedVault}
use package.pocket_vault.Vault.Entries.{
  has_id, admit_entry, push_entry, add_entry, overwrite, update_entry, delete_entry,
}
use package.pocket_vault.Vault.Members.{Absent-find}
use package.pocket_vault.Vault.Invariant.{admit_entry_lem}

-- The abstract view: what stands under an identifier.
abbrev pub entry_at : UnlockedVault → EntryId → Option VaultEntry
entry_at vault id = find (has_id id) vault.container.entries

-- The entry that `add_entry` makes of its input.
abbrev pub new_entry : UnlockedVault → EntryId → NewVaultEntry → ℕ → VaultEntry
new_entry vault id input now = record {
  id = id;
  title = input.title;
  secret = input.secret;
  description = input.description;
  created_at = max now vault.container.updated_at;
  updated_at = max now vault.container.updated_at;
}

find-append :
    (j : EntryId) (entries : List VaultEntry) (entry : VaultEntry)
    → Absent entry.id entries
    → find (has_id j) (entries ++ entry ∷ [])
      ≡ (if entry.id == j then some entry else find (has_id j) entries)
find-append j [] entry a = refl
find-append j (x ∷ entries) entry a =
    ground (arith, find-append j entries entry a.1, ==_iff entry.id j, ==_iff x.id j)

find-modify_first :
    (id j : EntryId) (f : VaultEntry → VaultEntry) (entries : List VaultEntry)
    → ((e : VaultEntry) → (f e).id ≡ e.id)
    → find (has_id j) (modify_first (has_id id) f entries)
      ≡ (if id == j then Option.map f (find (has_id j) entries) else find (has_id j) entries)
find-modify_first id j f [] same = ground arith
find-modify_first id j f (x ∷ entries) same = ground (
  arith,
  find-modify_first id j f entries same,
  ==_iff id j,
  ==_iff x.id j,
  ==_iff x.id id,
  ==_iff (f x).id j,
  same x,
)

find-remove_at :
    (id j : EntryId) (entries : List VaultEntry) (i : ℕ)
    → DistinctIds entries
    → position (has_id id) entries ≡ some i
    → find (has_id j) (remove_at i entries) ≡ (if id == j then none else find (has_id j) entries)
find-remove_at id j [] i d h = cc
find-remove_at id j (x ∷ entries) ℕ.zero d h =
    ground (arith, ==_iff id j, ==_iff x.id j, ==_iff x.id id, Absent-find x.id entries d.0)
find-remove_at id j (x ∷ entries) (ℕ.suc i) d h =
    ground (arith, find-remove_at id j entries i d.1, ==_iff id j, ==_iff x.id j, ==_iff x.id id)

pub position-find :
    (id : EntryId) (entries : List VaultEntry)
    → (position (has_id id) entries ≡ none) ↔ (find (has_id id) entries ≡ none)
position-find id [] = (λ h. refl, λ h. refl)
position-find id (x ∷ entries) = ground (arith, position-find id entries)

-- A successful `add_entry` returns an identifier that no entry had, and then maps it to the input,
-- stamped with the later of the clock and the container's last change; no other mapping changes.
pub add_entry-entry_at :
    {R : Type 0} (platform : Platform R) (vault : UnlockedVault) (input : NewVaultEntry) (now : ℕ)
    (rng : R) (id : EntryId)
    → (add_entry platform vault input now rng).0 ≡ ok id
    → (entry_at vault id ≡ none)
      × ((j : EntryId)
          → entry_at (add_entry platform vault input now rng).1 j
            ≡ (if id == j then some (new_entry vault id input now) else entry_at vault j))
unfolding add_entry push_entry
add_entry-entry_at platform vault input now rng id h =
    elim (Result-cases (admit_entry platform vault input rng).0) [
      | inr (e, refused) ↦ absurd (ground (arith, refused))
      | inl (id', admitted) ↦
          let (fit, room, fresh) = admit_entry_lem platform vault input rng id' admitted in
          let same : id' ≡ id = ground (arith, admitted) in
          (
            rw (← same) (Absent-find id' vault.container.entries fresh),
            λ j.
                rw (← same, admitted, add_entry)
                  (find-append j vault.container.entries (new_entry vault id' input now) fresh),
          )
    ]

-- A successful `update_entry` rewrites what its identifier maps to and no other mapping.
pub update_entry-entry_at :
    (input : UpdateVaultEntry) (now : ℕ) (vault : UnlockedVault) (j : EntryId)
    → (update_entry input now vault).0 ≡ ok tt
    → entry_at (update_entry input now vault).1 j ≡ (
        if input.id == j
        then Option.map (overwrite input (max now vault.container.updated_at)) (entry_at vault j)
        else entry_at vault j)
unfolding update_entry
update_entry-entry_at input now vault j h =
    let timestamp = max now vault.container.updated_at in
    ground (
      arith,
      find-modify_first input.id j (overwrite input timestamp) vault.container.entries
          (λ e. unfold overwrite in refl),
    )

-- A successful `delete_entry` on a sound container unmaps its identifier and no other.
pub delete_entry-entry_at :
    (id : EntryId) (now : ℕ) (vault : UnlockedVault) (j : EntryId)
    → ContainerIsSound vault.container
    → (delete_entry id now vault).0 ≡ ok tt
    → entry_at (delete_entry id now vault).1 j ≡ (if id == j then none else entry_at vault j)
unfolding delete_entry
delete_entry-entry_at id now vault j s h =
    elim (Option-cases (position (has_id id) vault.container.entries)) [
      | inl absent ↦ absurd (ground (arith, absent))
      | inr (i, found) ↦
          rw (found, delete_entry) (find-remove_at id j vault.container.entries i s.distinct found)
    ]
