-- ===== src/Storage/Preference.antt =====
-- crates/vault-core/src/storage.rs: what `open` returns, and when it repairs the pointer.
use package.pocket_vault.Base.{
  ℕ, ◌≡◌, ◌⊎◌, inl, inr, refl, sym, ap, ◌∙◌, true, String, Bytes, Option, some, Result, ok, err,
  Result-cases, Bool-cases, arith, map_ok, false, ◌==◌, ==_iff, nat_eq, option_eq,
}
use package.pocket_vault.Error.{VaultError}
use package.pocket_vault.Model.{
  SlotId, slot_id_eq, ActiveSlotV1, active_slot_eq, VaultContainerV1, VaultMetaV1,
}
use package.pocket_vault.Platform.{Platform}
use package.pocket_vault.Vault.{UnlockedVault}
use package.pocket_vault.Storage.Adapter.{DeviceStorage, active_slot_key}
use package.pocket_vault.Storage.Json.{decode_stored, write_json_verified}
use package.pocket_vault.Storage.Select.{usable_pointer}
use package.pocket_vault.Storage.Repository.{OpenedVault, pointer_to, open_vault}
use package.pocket_vault.Storage.Reference.{Choice, Shows, open_view, repair, open_vault-open_view}
use package.pocket_vault.Storage.Recovery.{SlotIn, MetaIn}
use package.pocket_vault.Storage.Decision.{session_at}
use package.pocket_vault.Storage.Selecting.{usable_pointer-eq-some, usable_pointer-named}
use package.pocket_vault.Storage.Best.{Names, Best, open_view-Best, SlotIn-open_view-ok}

-- The pointer to the slot of a session.
abbrev pub pointer_at : UnlockedVault → ActiveSlotV1
pointer_at vault = record {
  version = 1;
  slot = vault.persisted_slot;
  generation = vault.container.generation;
}

-- How `open` ends with this session: the pointer named its slot and the storage is as it was, or the
-- pointer did not and is written, with success or not.
abbrev pub Ending :
    {R S : Type 0}
    → Platform R
    → DeviceStorage S
    → (String → Option String)
    → UnlockedVault
    → S
    → Result VaultError OpenedVault × S
    → Type 0
Ending platform store view vault s out =
    let (written, s') =
      write_json_verified store platform.pointer_json active_slot_key (pointer_at vault) 1024 s in
    (Names platform view vault.persisted_slot vault.container.generation
      × (out ≡ (ok (record { vault = vault; active_pointer_repaired = false }), s)))
    ⊎ (¬ Names platform view vault.persisted_slot vault.container.generation
        × (out
            ≡ (map_ok (λ _. record { vault = vault; active_pointer_repaired = true }) written, s')))

map_ok-elim :
    {S : Type 0} (vault : UnlockedVault) (written : Result VaultError (Unit {0}) × S)
    → Path
        (Result VaultError OpenedVault × S)
        (elim written.0 [
          | ok _ ↦ (ok (record { vault = vault; active_pointer_repaired = true }), written.1)
          | err e ↦ (err e, written.1)
        ])
        (
          map_ok (λ _. record { vault = vault; active_pointer_repaired = true }) written.0,
          written.1,
        )
map_ok-elim vault (ok _, s) = refl
map_ok-elim vault (err e, s) = refl

module _ {R S : Type 0} (platform : Platform R) (store : DeviceStorage S) where
  -- The pointer is repaired unless it names the chosen slot.
  repair-Names :
      (view : String → Option String) (choice : Choice) (s : S)
      → choice.chosen.0.generation ≡ choice.chosen.1.generation
      → choice.pointer
        ≡ usable_pointer (decode_stored platform.pointer_json 1024 (view active_slot_key))
      → (out : Result VaultError OpenedVault × S) → out ≡ repair platform store choice s
      → Ending platform store view (session_at choice) s out
  repair-Names view choice s at read out ends =
      let vault = session_at choice in
      let to_slot : pointer_to choice.chosen.0 ≡ pointer_at vault =
        ap (λ (g : ℕ). record { version = 1; slot = choice.chosen.0.slot; generation = g }) at in
      let write = λ (p : ActiveSlotV1).
        write_json_verified store platform.pointer_json active_slot_key p 1024 s in
      let outcome : ActiveSlotV1 → Result VaultError OpenedVault × S = λ p. (
        map_ok (λ _. record { vault = vault; active_pointer_repaired = true }) (write p).0,
        (write p).1,
      ) in
      let iff = ==_iff choice.pointer (some (pointer_to choice.chosen.0)) in
      elim (Bool-cases (choice.pointer == some (pointer_to choice.chosen.0))) [
        | inl same ↦
            let (found, _) =
              usable_pointer-eq-some _ (pointer_to choice.chosen.0) (sym read ∙ iff.0 same) in
            inl (rw to_slot at found, ends ∙ rw same refl)
        | inr differs ↦
            let unrepaired : repair platform store choice s ≡ outcome (pointer_to choice.chosen.0) =
              rw differs (map_ok-elim vault (write (pointer_to choice.chosen.0))) in
            inr (
              λ named.
                  let named_pointer : choice.pointer ≡ some (pointer_at vault) =
                    read ∙ rw named (usable_pointer-named (pointer_at vault) refl) in
                  let points : choice.pointer ≡ some (pointer_to choice.chosen.0) =
                    rw to_slot named_pointer in
                  cc (differs, iff.1 points),
              ends ∙ unrepaired ∙ ap outcome to_slot,
            )
      ]

  -- On a storage whose reads succeed, `open` either decides for a session or refuses. It refuses,
  -- and changes nothing, only if nothing in the storage opens: there are no valid metadata from which
  -- the password leads to a key that decrypts a slot, sound and in its place, to a container of the
  -- metadata's creation time. The session that it decides for is of such a slot, and no other such
  -- slot is of a later generation. Among two of the same generation it is the one that the pointer
  -- names, a pointer of version 1, and the first if the pointer names none of the two. It returns
  -- this session without a write if the pointer names its slot and generation, and otherwise writes
  -- such a pointer and returns the session, or the error of that write.
  pub open_vault_prefers :
      (password : Bytes) (s : S) (view : String → Option String)
      → Shows platform store s view
      → ((vault : UnlockedVault) × (meta : VaultMetaV1) × Best platform view password meta vault
          × Ending platform store view vault s (open_vault platform store password s))
        ⊎ ((e : VaultError) × (open_vault platform store password s ≡ (err e, s))
            × (¬ (
                (meta : VaultMetaV1) × (dek : Bytes) × (place : SlotId) × (c : VaultContainerV1)
                × MetaIn platform view password meta dek
                × SlotIn platform view meta dek place c)))
  open_vault_prefers password s view shows =
      let decided = open_vault-open_view platform store password s view shows in
      elim (Result-cases (open_view platform view password)) [
        | inr (e, refused) ↦ inr (
          e,
          ground (arith, decided, refused),
          λ found.
              let (meta, dek, place, c, m, x) = found in
              let (choice, chose) =
                SlotIn-open_view-ok platform view password meta dek place c m x in
              ground (arith, refused, chose),
        )
        | inl (choice, chose) ↦
            let ((meta, best), at, read) = open_view-Best platform view password choice chose in
            inl (
              session_at choice,
              meta,
              best,
              repair-Names view choice s at read (open_vault platform store password s)
                  (ground (arith, decided, chose)),
            )
      ]
