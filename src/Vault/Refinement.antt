-- ===== src/Vault/Refinement.antt =====
-- crates/vault-core/src/vault.rs: what a sequence of edits does to a session is what the abstract
-- machine does.
use package.pocket_vault.Base.{
  ℕ, ◌≡◌, List, [], ◌∷◌, length, none, some, arith, ok, err, Option-cases, Result-cases, Bool-cases,
  length-append, inl, inr, position, ==_iff, refl, ltb,
}
use package.pocket_vault.Error.{
  VaultError, random_generation_failed, vault_too_large, invalid_container,
}
use package.pocket_vault.Model.{
  EntryId, entry_id_eq, NewVaultEntry, UpdateVaultEntry, validate_entry_fields,
}
use package.pocket_vault.Model.Validation.{validate_entry_fields_iff}
use package.pocket_vault.Model.Spec.{ContainerIsSound}
use package.pocket_vault.Platform.{Platform}
use package.pocket_vault.Vault.Session.{UnlockedVault}
use package.pocket_vault.Vault.Entries.{
  has_id, draw_id, overwrite, push_entry, generate_unique_entry_id, admit_entry, add_entry,
  update_entry, delete_entry,
}
use package.pocket_vault.Vault.Edits.{
  Edit, adding, updating, deleting, edit, edit_all, edit-IsSound,
}
use package.pocket_vault.Vault.Ledger.{
  ledger_of, failed, Draws, Turn, inserts, rewrites, erases, unfit_new, full, undrawn, unfit_change,
  unknown_change, unknown, Turns, stop, turn, answer, answers,
}
use package.pocket_vault.Vault.Members.{length-modify_first}
use package.pocket_vault.Vault.Invariant.{admit_entry_lem}
use package.pocket_vault.Vault.EntryMap.{
  entry_at, position-find, add_entry-entry_at, update_entry-entry_at, delete_entry-entry_at,
}
use package.pocket_vault.Vault.Refusals.{
  validate_entry_fields-err, Written-where, length-remove_at_found, draw_id-err, draw_id-Draws,
}

module _ {R : Type 0} (platform : Platform R) where
  admit_entry-Turn :
      (input : NewVaultEntry) (now : ℕ) (vault : UnlockedVault) (rng : R) (e : VaultError)
      → (admit_entry platform vault input rng).0 ≡ err e
      → Turn platform
          (ledger_of vault)
          rng
          (adding input now)
          (failed e)
          (ledger_of vault)
          (admit_entry platform vault input rng).1
  unfolding admit_entry generate_unique_entry_id
  admit_entry-Turn input now vault rng e h =
      let fields = validate_entry_fields_iff input.title input.secret input.description in
      elim (Result-cases (validate_entry_fields input.title input.secret input.description)) [
        | inr (e', unfit) ↦
            let (text, why, misfit) =
              validate_entry_fields-err input.title input.secret input.description e' unfit in
            let same : e ≡ invalid_container text = ground (arith, unfit, why) in
            rw (same, unfit, admit_entry) (unfit_new input now text misfit)
        | inl (_, fit) ↦ elim (Bool-cases (ltb (length vault.container.entries) 10000)) [
          | inr crowded ↦
              let same : e ≡ vault_too_large = ground (arith, fit, crowded) in
              rw (same, fit, crowded, admit_entry)
                (full input now (fields.0 fit) (ground (arith, crowded)))
          | inl room ↦
              let none_drawn : (draw_id platform 8 vault.container.entries rng).0 ≡ err e =
                ground (arith, fit, room) in
              let same : e ≡ random_generation_failed =
                draw_id-err platform 8 vault.container.entries rng e none_drawn in
              rw (same, fit, room, admit_entry, generate_unique_entry_id)
                (undrawn input now _ (fields.0 fit) (ground (arith, room))
                  (rw none_drawn at (draw_id-Draws platform 8 vault rng)))
        ]
      ]

  admit_entry-Draws :
      (input : NewVaultEntry) (vault : UnlockedVault) (rng : R) (id : EntryId)
      → (admit_entry platform vault input rng).0 ≡ ok id
      → Draws platform (ledger_of vault) 8 rng (some id) (admit_entry platform vault input rng).1
  unfolding admit_entry generate_unique_entry_id
  admit_entry-Draws input vault rng id h =
      elim (Result-cases (validate_entry_fields input.title input.secret input.description)) [
        | inr (e, unfit) ↦ absurd (ground (arith, unfit))
        | inl (_, fit) ↦ elim (Bool-cases (ltb (length vault.container.entries) 10000)) [
          | inr crowded ↦ absurd (ground (arith, fit, crowded))
          | inl room ↦
              let drew : (draw_id platform 8 vault.container.entries rng).0 ≡ ok id =
                ground (arith, fit, room) in
              rw (fit, room, admit_entry, generate_unique_entry_id)
                (rw drew at (draw_id-Draws platform 8 vault rng))
        ]
      ]

  adding-Turn :
      (input : NewVaultEntry) (now : ℕ) (vault : UnlockedVault) (rng : R)
      → Turn platform
          (ledger_of vault)
          rng
          (adding input now)
          (answer platform (adding input now) vault rng)
          (ledger_of (edit platform (adding input now) vault rng).0)
          (edit platform (adding input now) vault rng).1
  unfolding add_entry push_entry
  adding-Turn input now vault rng = elim (Result-cases (admit_entry platform vault input rng).0) [
    | inl (id, admitted) ↦
        let (fit, room, fresh) = admit_entry_lem platform vault input rng id admitted in
        let (absent, maps) =
          add_entry-entry_at platform vault input now rng id (ground (arith, admitted)) in
        rw (admitted, add_entry)
          (inserts input now id (ledger_of (push_entry vault id input now)) _ fit room
            (admit_entry-Draws input vault rng id admitted) absent
            (Written-where (ledger_of vault) id _ now _ (λ j. rw (admitted, add_entry) at (maps j))
              refl)
            (length-append vault.container.entries _))
    | inr (e, refused) ↦ rw (refused, add_entry) (admit_entry-Turn input now vault rng e refused)
  ]

  updating-Turn :
      (input : UpdateVaultEntry) (now : ℕ) (vault : UnlockedVault) (rng : R)
      → Turn platform
          (ledger_of vault)
          rng
          (updating input now)
          (answer platform (updating input now) vault rng)
          (ledger_of (edit platform (updating input now) vault rng).0)
          (edit platform (updating input now) vault rng).1
  unfolding update_entry overwrite
  updating-Turn input now vault rng =
      let fields = validate_entry_fields_iff input.title input.secret input.description in
      elim (Result-cases (validate_entry_fields input.title input.secret input.description)) [
        | inr (e, unfit) ↦
            let (text, same, misfit) =
              validate_entry_fields-err input.title input.secret input.description e unfit in
            rw (unfit, same, update_entry) (unfit_change input now text misfit)
        | inl (_, fit) ↦ elim (Option-cases (entry_at vault input.id)) [
          | inl absent ↦
              rw (fit, absent, update_entry) (unknown_change input now (fields.0 fit) absent)
          | inr (entry, found) ↦
              let maps : (j : EntryId) → _ =
                λ j. update_entry-entry_at input now vault j (ground (arith, fit, found)) in
              rw (fit, found, update_entry)
                (rewrites input now entry _ (fields.0 fit) found
                  (Written-where (ledger_of vault) input.id _ now _
                    (λ j.
                      ground (
                        arith,
                        rw (fit, found, update_entry) at (maps j),
                        ==_iff input.id j,
                        found,
                      ))
                    refl)
                  (length-modify_first _ _ _))
        ]
      ]

  deleting-Turn :
      (id : EntryId) (now : ℕ) (vault : UnlockedVault) (rng : R)
      → ContainerIsSound vault.container
      → Turn platform
          (ledger_of vault)
          rng
          (deleting id now)
          (answer platform (deleting id now) vault rng)
          (ledger_of (edit platform (deleting id now) vault rng).0)
          (edit platform (deleting id now) vault rng).1
  unfolding delete_entry
  deleting-Turn id now vault rng sound =
      elim (Option-cases (position (has_id id) vault.container.entries)) [
        | inl absent ↦
            rw (absent, delete_entry)
              (unknown id now ((position-find id vault.container.entries).0 absent))
        | inr (i, found) ↦ elim (Option-cases (entry_at vault id)) [
          | inl absent ↦
              absurd (ground (arith, (position-find id vault.container.entries).1 absent))
          | inr (entry, present) ↦
              let maps : (j : EntryId) → _ =
                λ j. delete_entry-entry_at id now vault j sound (ground (arith, found)) in
              rw (found, delete_entry)
                (erases id now entry _ present
                  (Written-where (ledger_of vault) id none now _
                    (λ j. rw (found, delete_entry) at (maps j)) refl)
                  (length-remove_at_found id vault.container.entries i found))
        ]
      ]

  edit-Turn :
      (e : Edit) (vault : UnlockedVault) (rng : R)
      → ContainerIsSound vault.container
      → Turn platform
          (ledger_of vault)
          rng
          e
          (answer platform e vault rng)
          (ledger_of (edit platform e vault rng).0)
          (edit platform e vault rng).1
  edit-Turn (adding input now) vault rng sound = adding-Turn input now vault rng
  edit-Turn (updating input now) vault rng sound = updating-Turn input now vault rng
  edit-Turn (deleting id now) vault rng sound = deleting-Turn id now vault rng sound

  -- From a sound session, `add_entry`, `update_entry` and `delete_entry` in any number and order
  -- answer, call by call, and leave the session and the random source as an abstract machine does,
  -- which is a map from identifiers to entries with their number and the time of the last change.
  -- Adding maps the first free identifier that the random source gives in eight attempts to an entry
  -- of the input; updating gives the entry under its identifier the title, secret and description of
  -- the input and keeps its identifier and creation time; deleting unmaps its identifier. No other
  -- mapping changes. The time of the last change becomes the later of itself and the clock, and an
  -- added or updated entry bears it (an updated one the later of it and its creation time). A call
  -- is refused, leaves the map as it was and reports why, where the fields do not fit, the map is
  -- full, the identifier is unknown, or the random source failed or gave only taken identifiers in
  -- the eight attempts.
  pub edit_all_refines :
      (es : List Edit) (vault : UnlockedVault) (rng : R)
      → ContainerIsSound vault.container
      → Turns platform
          (ledger_of vault)
          rng
          es
          (answers platform es vault rng)
          (ledger_of (edit_all platform es vault rng).0)
          (edit_all platform es vault rng).1
  unfolding answers edit_all
  edit_all_refines [] vault rng sound = stop (ledger_of vault) rng
  edit_all_refines (e ∷ es) vault rng sound =
      let after = edit platform e vault rng in
      let final = edit_all platform es after.0 after.1 in
      turn (ledger_of vault) (ledger_of after.0) (ledger_of final.0) rng after.1 final.1 e
        (answer platform e vault rng) es (answers platform es after.0 after.1)
        (edit-Turn e vault rng sound)
        (edit_all_refines es after.0 after.1 (edit-IsSound platform e vault rng sound))
