-- ===== src/Storage/Newest.antt =====
-- crates/vault-core/src/storage.rs: `open` where one usable slot is newer than every other.
use package.pocket_vault.Base.{
  ◌≡◌, ◌<◌, ◌⊎◌, inl, inr, refl, String, Bytes, List, [], ◌∷◌, Option, none, some, ok, err, Result,
  arith, Elem, All-Elem, Elem-append, Elem-append_left, Elem-append_right, ==_iff,
}
use package.pocket_vault.Error.{VaultError}
use package.pocket_vault.Model.{
  SlotId, slot_a, slot_b, slot_id_eq, VaultId, EncryptedVaultSlotV1, ActiveSlotV1, VaultContainerV1,
  VaultMetaV1,
}
use package.pocket_vault.Model.Spec.{SlotIsSound}
use package.pocket_vault.Model.Validation.{validate_slot_iff}
use package.pocket_vault.Platform.{Platform}
use package.pocket_vault.Crypto.{derive_kek, unwrap_dek}
use package.pocket_vault.Vault.{decrypt_container}
use package.pocket_vault.Storage.Adapter.{slot_key}
use package.pocket_vault.Storage.Json.{decode_stored}
use package.pocket_vault.Storage.Select.{
  Candidate, sort_by, candidate_order, authenticated, usable_slot,
}
use package.pocket_vault.Storage.Repository.{first, select}
use package.pocket_vault.Storage.Selection.{
  Preferred, first-sort_by, Elem-authenticated, authenticated-Elem,
}
use package.pocket_vault.Storage.Reference.{slots_in_view}

usable_slot-Elem :
    (expected : SlotId) (vault_id : VaultId) (r : Result VaultError (Option EncryptedVaultSlotV1))
    (x : EncryptedVaultSlotV1)
    → Elem x (usable_slot expected vault_id r)
    → (r ≡ ok (some x)) × (x.slot ≡ expected) × SlotIsSound x vault_id
unfolding usable_slot
usable_slot-Elem expected vault_id (err e) x h = absurd h
usable_slot-Elem expected vault_id (ok none) x h = absurd h
usable_slot-Elem expected vault_id (ok (some slot)) x h =
    ground (arith, ==_iff slot.slot expected, validate_slot_iff slot vault_id)

pub Elem-usable_slot :
    (expected : SlotId) (vault_id : VaultId) (x : EncryptedVaultSlotV1)
    → x.slot ≡ expected
    → SlotIsSound x vault_id
    → usable_slot expected vault_id (ok (some x)) ≡ x ∷ []
unfolding usable_slot
Elem-usable_slot expected vault_id x place sound =
    ground (arith, ==_iff x.slot expected, (validate_slot_iff x vault_id).1 sound)

module _ {R : Type 0} (platform : Platform R) (view : String → Option String)
    (vault_id : VaultId) where
  pub slots_in_view-Elem :
      (x : EncryptedVaultSlotV1)
      → Elem x (slots_in_view platform view vault_id)
      → (decode_stored platform.slot_json 5242880 (view (slot_key x.slot)) ≡ ok (some x))
        × SlotIsSound x vault_id
  slots_in_view-Elem x e =
      let a = decode_stored platform.slot_json 5242880 (view (slot_key slot_a)) in
      let b = decode_stored platform.slot_json 5242880 (view (slot_key slot_b)) in
      elim (Elem-append x (usable_slot slot_a vault_id a) (usable_slot slot_b vault_id b) e) [
        | inl left ↦
            let (found, place, sound) = usable_slot-Elem slot_a vault_id a x left in
            (simp place found, sound)
        | inr right ↦
            let (found, place, sound) = usable_slot-Elem slot_b vault_id b x right in
            (simp place found, sound)
      ]

  pub Elem-slots_in_view :
      (place : SlotId) (x : EncryptedVaultSlotV1)
      → decode_stored platform.slot_json 5242880 (view (slot_key place)) ≡ ok (some x)
      → x.slot ≡ place
      → SlotIsSound x vault_id
      → Elem x (slots_in_view platform view vault_id)
  Elem-slots_in_view slot_a x found place sound =
      let a = decode_stored platform.slot_json 5242880 (view (slot_key slot_a)) in
      Elem-append_left x (usable_slot slot_a vault_id a) _
        (rw (found, Elem-usable_slot slot_a vault_id x place sound) (inl refl))
  Elem-slots_in_view slot_b x found place sound =
      let a = decode_stored platform.slot_json 5242880 (view (slot_key slot_a)) in
      let b = decode_stored platform.slot_json 5242880 (view (slot_key slot_b)) in
      Elem-append_right x (usable_slot slot_a vault_id a) (usable_slot slot_b vault_id b)
        (rw (found, Elem-usable_slot slot_b vault_id x place sound) (inl refl))

module _ {R : Type 0} (platform : Platform R) (pointer : Option ActiveSlotV1) where
  first-newest :
      (cs : List Candidate) (best : Candidate)
      → Elem best cs
      → ((x : Candidate) → Elem x cs → (x ≡ best) ⊎ (x.0.generation < best.0.generation))
      → first (sort_by (candidate_order pointer) cs) ≡ some best
  first-newest [] best e newest = absurd e
  first-newest (c ∷ cs) best e newest =
      let (b, is_first, elem, all) = first-sort_by pointer c cs in
      elim (newest b elem) [
        | inl same ↦ rw (← same) is_first
        | inr older ↦
            let p : Preferred pointer b best = All-Elem (Preferred pointer b) (c ∷ cs) best all e in
            absurd (omega (arith, p.newer))
      ]

  -- If one of the usable slots decrypts, at the metadata's time, and every other is of an earlier
  -- generation, then it is selected.
  pub select-newest :
      (password kek dek : Bytes) (meta : VaultMetaV1) (slots : List EncryptedVaultSlotV1)
      (best : EncryptedVaultSlotV1) (c : VaultContainerV1)
      → derive_kek platform password meta.vault_id meta.kdf ≡ ok kek
      → unwrap_dek platform kek meta.wrapped_dek meta.vault_id ≡ ok dek
      → Elem best slots
      → decrypt_container platform dek best ≡ ok c
      → c.created_at ≡ meta.created_at
      → ((x : EncryptedVaultSlotV1) → Elem x slots → (x ≡ best) ⊎ (x.generation < best.generation))
      → select platform password meta pointer slots ≡ ok ((best, c), dek)
  unfolding select
  select-newest password kek dek meta [] best c derived unwrapped e opens born newest = absurd e
  select-newest password kek dek meta (s ∷ slots) best c derived unwrapped e opens born newest =
      let kept = Elem-authenticated platform dek meta.created_at (s ∷ slots) best c e opens born in
      let cs = authenticated platform dek meta.created_at (s ∷ slots) in
      let only : (x : Candidate)
          → Elem x cs
          → (x ≡ (best, c)) ⊎ (x.0.generation < best.generation) =
        λ x x_in.
          let (x_slot, x_opens, _) =
            authenticated-Elem platform dek meta.created_at (s ∷ slots) x x_in in
          elim (newest x.0 x_slot) [
            | inl same ↦ inl (ground (arith, same, x_opens, opens))
            | inr older ↦ inr older
          ] in
      ground (arith, derived, unwrapped, first-newest cs (best, c) kept only)
