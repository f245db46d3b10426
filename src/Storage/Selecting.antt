-- ===== src/Storage/Selecting.antt =====
-- crates/vault-core/src/storage.rs: what the steps of `open` return and when they do.
use mathlib.Core.Path.{subst}
use Prim.Native.Nat.{Ordering}
use package.pocket_vault.Base.{
  ◌≡◌, ◌≤◌, ◌⊎◌, refl, true, inl, inr, sym, String, Bytes, List, [], ◌∷◌, Option, none, some,
  Result, ok, err, Result-cases, arith, Elem, All-Elem, ==_iff, nat_eq, option_eq,
}
use package.pocket_vault.Error.{VaultError}
use package.pocket_vault.Model.{
  slot_id_eq, EncryptedVaultSlotV1, ActiveSlotV1, active_slot_eq, VaultMetaV1, validate_meta,
  validate_pointer,
}
use package.pocket_vault.Platform.{Platform}
use package.pocket_vault.Crypto.{derive_kek, unwrap_dek}
use package.pocket_vault.Storage.Adapter.{meta_key, active_slot_key}
use package.pocket_vault.Storage.Json.{decode_stored}
use package.pocket_vault.Storage.Select.{
  insert_by, points_to, Candidate, usable_pointer, authenticated, sort_by, candidate_order,
}
use package.pocket_vault.Storage.Repository.{first, select}
use package.pocket_vault.Storage.Reference.{Choice, slots_in_view, open_view}
use package.pocket_vault.Storage.Selection.{gt-cases, Preferred, first-sort_by}

pub first-Preferred :
    (pointer : Option ActiveSlotV1) (cs : List Candidate) (best : Candidate)
    → first (sort_by (candidate_order pointer) cs) ≡ some best
    → Elem best cs × ((x : Candidate) → Elem x cs → Preferred pointer best x)
first-Preferred pointer [] best h = cc
first-Preferred pointer (c ∷ cs) best h =
    let (b, is_first, elem, all) = first-sort_by pointer c cs in
    let same : best ≡ b = ground (arith, is_first, h) in
    let both : Elem b (c ∷ cs) × ((x : Candidate) → Elem x (c ∷ cs) → Preferred pointer b x) =
      (elem, λ x e. All-Elem (Preferred pointer b) (c ∷ cs) x all e) in
    subst (λ b. Elem b (c ∷ cs) × ((x : Candidate) → Elem x (c ∷ cs) → Preferred pointer b x))
      (sym same) both

pub usable_pointer-eq-some :
    (r : Result VaultError (Option ActiveSlotV1)) (p : ActiveSlotV1)
    → usable_pointer r ≡ some p
    → (r ≡ ok (some p)) × (p.version ≡ 1)
unfolding usable_pointer validate_pointer
usable_pointer-eq-some (err e) p h = cc
usable_pointer-eq-some (ok none) p h = cc
usable_pointer-eq-some (ok (some q)) p h = ground (arith, ==_iff q.version 1)

pub usable_pointer-named :
    (p : ActiveSlotV1) → p.version ≡ 1 → usable_pointer (ok (some p)) ≡ some p
unfolding usable_pointer validate_pointer
usable_pointer-named p h = ground (arith, ==_iff p.version 1)

module _ {R : Type 0} (platform : Platform R) (view : String → Option String) where
  open platform use {meta_json, pointer_json}

  pub open_view-eq-ok :
      (password : Bytes) (choice : Choice)
      → open_view platform view password ≡ ok choice
      → (meta : VaultMetaV1) × (decode_stored meta_json 16384 (view meta_key) ≡ ok (some meta))
        × (validate_meta meta ≡ ok tt)
        × (choice.pointer ≡ usable_pointer (decode_stored pointer_json 1024 (view active_slot_key)))
        × (select platform password meta choice.pointer (slots_in_view platform view meta.vault_id)
            ≡ ok (choice.chosen, choice.dek))
  unfolding open_view
  open_view-eq-ok password choice h =
      elim (Result-cases (decode_stored meta_json 16384 (view meta_key))) [
        | inr (e, bad) ↦ absurd (ground (arith, bad))
        | inl (none, missing) ↦ absurd (ground (arith, missing))
        | inl (some meta, found) ↦ elim (Result-cases (validate_meta meta)) [
          | inr (e, bad) ↦ absurd (ground (arith, found, bad))
          | inl (_, valid) ↦
              let pointer =
                usable_pointer (decode_stored pointer_json 1024 (view active_slot_key)) in
              elim (Result-cases (
                select platform password meta pointer
                  (slots_in_view platform view meta.vault_id))) [
                    | inr (e, bad) ↦ absurd (ground (arith, found, valid, bad))
                    | inl (selected, chose) ↦ (
                      meta,
                      found,
                      valid,
                      ground (arith, found, valid, chose),
                      ground (arith, found, valid, chose),
                    )
                  ]
        ]
      ]

pub select-eq-ok :
    {R : Type 0} (platform : Platform R) (password : Bytes) (meta : VaultMetaV1)
    (pointer : Option ActiveSlotV1) (slots : List EncryptedVaultSlotV1) (best : Candidate)
    (dek : Bytes)
    → select platform password meta pointer slots ≡ ok (best, dek)
    → (kek : Bytes) × (derive_kek platform password meta.vault_id meta.kdf ≡ ok kek)
      × (unwrap_dek platform kek meta.wrapped_dek meta.vault_id ≡ ok dek)
      × (first
            (sort_by (candidate_order pointer) (authenticated platform dek meta.created_at slots))
          ≡ some best)
unfolding select
select-eq-ok platform password meta pointer [] best dek h = absurd (ground (arith, h))
select-eq-ok platform password meta pointer (s ∷ slots) best dek h =
    elim (Result-cases (derive_kek platform password meta.vault_id meta.kdf)) [
      | inr (e, bad) ↦ absurd (ground (arith, bad))
      | inl (kek, derived) ↦
          elim (Result-cases (unwrap_dek platform kek meta.wrapped_dek meta.vault_id)) [
            | inr (e, bad) ↦ absurd (ground (arith, derived, bad))
            | inl (dek', unwrapped) ↦
                let cs = authenticated platform dek' meta.created_at (s ∷ slots) in
                let chosen : first (sort_by (candidate_order pointer) cs) ≡ some best =
                  ground (arith, derived, unwrapped) in
                let same : dek' ≡ dek = ground (arith, derived, unwrapped, chosen) in
                (kek, derived, rw (← same) unwrapped, rw (← same) chosen)
          ]
    ]

first-some :
    (pointer : Option ActiveSlotV1) (cs : List Candidate) (x : Candidate)
    → Elem x cs
    → (best : Candidate) × (first (sort_by (candidate_order pointer) cs) ≡ some best)
first-some pointer [] x e = absurd e
first-some pointer (c ∷ cs) x e = let found = first-sort_by pointer c cs in (found.0, found.1)

pub select-some :
    {R : Type 0} (platform : Platform R) (password kek dek : Bytes) (meta : VaultMetaV1)
    (pointer : Option ActiveSlotV1) (slots : List EncryptedVaultSlotV1) (x : Candidate)
    → derive_kek platform password meta.vault_id meta.kdf ≡ ok kek
    → unwrap_dek platform kek meta.wrapped_dek meta.vault_id ≡ ok dek
    → Elem x (authenticated platform dek meta.created_at slots)
    → (r : Candidate × Bytes) × (select platform password meta pointer slots ≡ ok r)
unfolding select authenticated
select-some platform password kek dek meta pointer [] x derived unwrapped e = absurd e
select-some platform password kek dek meta pointer (s ∷ slots) x derived unwrapped e =
    let (best, found) =
      first-some pointer (authenticated platform dek meta.created_at (s ∷ slots)) x e in
    ((best, dek), ground (arith, derived, unwrapped, found))

first-insert_by_head :
    (pointer : Option ActiveSlotV1) (x : Candidate) (ys : List Candidate)
    → (first (insert_by (candidate_order pointer) x ys) ≡ some x)
      ⊎ ((y : Candidate) × (first (insert_by (candidate_order pointer) x ys) ≡ some y)
          × (candidate_order pointer x y ≡ Ordering.gt))
first-insert_by_head pointer x [] = inl refl
first-insert_by_head pointer x (y ∷ ys) = elim (gt-cases (candidate_order pointer x y)) [
  | inl later ↦ inr (y, ground (arith, later), later)
  | inr not_later ↦ inl (ground (arith, not_later))
]

-- The sort is stable: if the first candidate does not stay first, then one of a later generation
-- does, or one of the same generation that the pointer names.
pub first-sort_by_head :
    (pointer : Option ActiveSlotV1) (x best : Candidate) (cs : List Candidate)
    → first (sort_by (candidate_order pointer) (x ∷ cs)) ≡ some best
    → best.0.generation ≤ x.0.generation
    → (best ≡ x) ⊎ (points_to pointer best.0 ≡ true)
unfolding candidate_order
first-sort_by_head pointer x best cs h older =
    elim (first-insert_by_head pointer x (sort_by (candidate_order pointer) cs)) [
      | inl stays ↦ inl (ground (arith, stays))
      | inr (y, front, later) ↦
          let same : y ≡ best = ground (arith, front) in
          let after : candidate_order pointer x best ≡ Ordering.gt = rw (← same) later in
          inr (ground (arith, after))
    ]
