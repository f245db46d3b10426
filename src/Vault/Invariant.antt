-- ===== src/Vault/Invariant.antt =====
-- The operations of crates/vault-core/src/vault.rs on a sound container.
use Prim.Native.Nat.{max}
use package.pocket_vault.Base.{
  ℕ, ◌≡◌, ◌<◌, refl, List, length, length-append, arith, ok, Option-cases, Result-cases, inl, inr,
  position, find,
}
use package.pocket_vault.Model.{
  EntryId, VaultEntry, NewVaultEntry, UpdateVaultEntry, VaultContainerV1, validate_entry_fields,
}
use package.pocket_vault.Model.Spec.{FieldsFit, MemberIsSound, Absent, ContainerIsSound}
use package.pocket_vault.Model.Validation.{validate_entry_fields_iff}
use package.pocket_vault.Platform.{Platform}
use package.pocket_vault.Crypto.{random_array}
use package.pocket_vault.Vault.Session.{UnlockedVault}
use package.pocket_vault.Vault.Entries.{
  has_id, draw_id, generate_unique_entry_id, admit_entry, push_entry, add_entry, overwrite,
  update_entry, delete_entry,
}
use package.pocket_vault.Vault.Members.{
  All-mono, All-append, All-remove_at, All-modify_first, all-Absent, DistinctIds-append,
  DistinctIds-remove_at, DistinctIds-modify_first, length-remove_at, length-modify_first,
}

-- Deleting an entry, or failing to, keeps the container sound.
pub delete_entry-IsSound :
    (id : EntryId) (now : ℕ) (vault : UnlockedVault)
    → ContainerIsSound vault.container
    → ContainerIsSound (delete_entry id now vault).1.container
unfolding delete_entry
delete_entry-IsSound id now vault h =
    let c = vault.container in
    elim (Option-cases (position (has_id id) c.entries)) [
      | inl absent ↦ rw (absent, delete_entry) h
      | inr (i, e) ↦
          rw (e, delete_entry)
            (record {
              format = h.format;
              version = h.version;
              ordered = ground (arith, h.ordered);
              room = ground (arith, length-remove_at i c.entries, h.room);
              members = All-mono c _ _ refl (omega arith) (All-remove_at c i c.entries h.members);
              distinct = DistinctIds-remove_at i c.entries h.distinct;
            })
    ]

overwrite-IsSound :
    (input : UpdateVaultEntry) (now : ℕ) (c c' : VaultContainerV1) (entry : VaultEntry)
    → FieldsFit input.title input.secret input.description
    → c'.created_at ≡ c.created_at
    → c'.updated_at ≡ max now c.updated_at
    → MemberIsSound c' entry
    → MemberIsSound c' (overwrite input (max now c.updated_at) entry)
unfolding overwrite
overwrite-IsSound input now c c' entry fit start finish h = record {
  fields = fit;
  ordered = omega (arith, h.ordered, h.before);
  after = h.after;
  before = omega (arith, h.ordered, h.before, finish);
}

-- Updating an entry, or failing to, keeps the container sound.
pub update_entry-IsSound :
    (input : UpdateVaultEntry) (now : ℕ) (vault : UnlockedVault)
    → ContainerIsSound vault.container
    → ContainerIsSound (update_entry input now vault).1.container
unfolding update_entry
update_entry-IsSound input now vault h =
    let c = vault.container in
    let fields = validate_entry_fields input.title input.secret input.description in
    elim (Result-cases fields) [
      | inr (e, refused) ↦ rw (refused, update_entry) h
      | inl (done, accepted) ↦ elim (Option-cases (find (has_id input.id) c.entries)) [
        | inl absent ↦ rw (accepted, absent, update_entry) h
        | inr (x, found) ↦
            rw (accepted, found, update_entry)
              (record {
                format = h.format;
                version = h.version;
                ordered = omega (arith, h.ordered);
                room = omega (
                  arith,
                  length-modify_first (has_id input.id) (overwrite input (max now c.updated_at))
                      c.entries,
                  h.room,
                );
                members =
                    All-modify_first _ _ _ c.entries
                      (λ e m.
                        overwrite-IsSound input now c _ e
                          ((validate_entry_fields_iff _ _ _).0 accepted) refl refl m)
                      (All-mono c _ _ refl (omega arith) h.members);
                distinct =
                    DistinctIds-modify_first (has_id input.id)
                      (overwrite input (max now c.updated_at)) c.entries
                      (λ e. unfold overwrite in refl) h.distinct;
              })
      ]
    ]

-- A drawn identifier is that of no entry.
pub draw_id-Absent :
    {R : Type 0} (platform : Platform R) (attempts : ℕ) (entries : List VaultEntry) (rng : R)
    (id : EntryId)
    → (draw_id platform attempts entries rng).0 ≡ ok id
    → Absent id entries
unfolding draw_id
draw_id-Absent platform ℕ.zero entries rng id h = cc
draw_id-Absent platform (ℕ.suc attempts) entries rng id h =
    elim (Result-cases (random_array platform 16 rng).0) [
      | inr (e, failed) ↦ absurd (ground (arith, failed))
      | inl (bytes, drawn) ↦ ground (
        arith,
        drawn,
        all-Absent (record { bytes = bytes }) entries,
        draw_id-Absent platform attempts entries (random_array platform 16 rng).1 id,
      )
    ]

push_entry-IsSound :
    (vault : UnlockedVault) (id : EntryId) (input : NewVaultEntry) (now : ℕ)
    → ContainerIsSound vault.container
    → FieldsFit input.title input.secret input.description
    → length vault.container.entries < 10000
    → Absent id vault.container.entries
    → ContainerIsSound (push_entry vault id input now).container
unfolding push_entry
push_entry-IsSound vault id input now h fit room fresh =
    let c = vault.container in
    record {
      format = h.format;
      version = h.version;
      ordered = omega (arith, h.ordered);
      room = rw length-append (omega arith);
      members = All-append _ c.entries _ (All-mono c _ _ refl (omega arith) h.members) (record {
        fields = fit;
        ordered = omega arith;
        after = omega (arith, h.ordered);
        before = omega arith;
      });
      distinct = DistinctIds-append c.entries _ h.distinct fresh;
    }

-- What `add_entry` has checked when it has an identifier.
pub admit_entry_lem :
    {R : Type 0} (platform : Platform R) (vault : UnlockedVault) (input : NewVaultEntry) (rng : R)
    (id : EntryId)
    → (admit_entry platform vault input rng).0 ≡ ok id
    → FieldsFit input.title input.secret input.description
      × (length vault.container.entries < 10000)
      × Absent id vault.container.entries
unfolding admit_entry generate_unique_entry_id
admit_entry_lem platform vault input rng id h = ground (
  arith,
  validate_entry_fields_iff input.title input.secret input.description,
  draw_id-Absent platform 8 vault.container.entries rng id,
)

-- Adding an entry, or failing to, keeps the container sound.
pub add_entry-IsSound :
    {R : Type 0} (platform : Platform R) (vault : UnlockedVault) (input : NewVaultEntry) (now : ℕ)
    (rng : R)
    → ContainerIsSound vault.container
    → ContainerIsSound (add_entry platform vault input now rng).1.container
unfolding add_entry
add_entry-IsSound platform vault input now rng h =
    elim (Result-cases (admit_entry platform vault input rng).0) [
      | inr (e, refused) ↦ rw (refused, add_entry) h
      | inl (id, admitted) ↦
          let (fit, room, fresh) = admit_entry_lem platform vault input rng id admitted in
          rw (admitted, add_entry) (push_entry-IsSound vault id input now h fit room fresh)
    ]
