-- ===== src/Storage/Select.antt =====
-- crates/vault-core/src/storage.rs: which of the authenticated slots `open` selects.
use Prim.Native.Nat.{compare, Ordering}
use package.pocket_vault.Base.{
  ℕ, Bytes, ◌&&◌, Bool, true, false, List, [], ◌∷◌, Option, none, some, ◌==◌, nat_eq, Result, ok,
  err, if◌then◌else◌,
}
use package.pocket_vault.Model.{
  SlotId, slot_id_eq, EncryptedVaultSlotV1, ActiveSlotV1, VaultContainerV1, VaultId, validate_slot,
  validate_pointer,
}
use package.pocket_vault.Error.{VaultError}
use package.pocket_vault.Platform.{Platform}
use package.pocket_vault.Vault.{decrypt_container}

-- `Ordering::then_with`, and `Ord` on `bool`.
abbrev pub then_with : Ordering → Ordering → Ordering
then_with Ordering.eq later = later
then_with first _ = first

abbrev pub compare_bool : Bool → Bool → Ordering
compare_bool false true = Ordering.lt
compare_bool true false = Ordering.gt
compare_bool _ _ = Ordering.eq

-- `slice::sort_by`, which is stable.
module _ {A : Type 0} (order : A → A → Ordering) where
  abbrev pub insert_by : A → List A → List A
  insert_by x [] = x ∷ []
  insert_by x (y ∷ ys) =
      let rest = insert_by x ys in elim (order x y) [ Ordering.gt ↦ y ∷ rest | _ ↦ x ∷ y ∷ ys ]

  abbrev pub sort_by : List A → List A
  sort_by [] = []
  sort_by (x ∷ xs) = insert_by x (sort_by xs)

abbrev pub points_to : Option ActiveSlotV1 → EncryptedVaultSlotV1 → Bool
points_to none slot = false
points_to (some value) slot = value.slot == slot.slot && value.generation == slot.generation

-- `pointer_preference`
unfoldable pub pointer_preference :
    Option ActiveSlotV1 → EncryptedVaultSlotV1 → EncryptedVaultSlotV1 → Ordering
pointer_preference pointer right left =
    compare_bool (points_to pointer right) (points_to pointer left)

abbrev pub Candidate : Type 0
Candidate = EncryptedVaultSlotV1 × VaultContainerV1

-- The closure that `open` sorts by.
unfoldable pub candidate_order : Option ActiveSlotV1 → Candidate → Candidate → Ordering
unfolding pointer_preference
candidate_order pointer left right =
    then_with (compare right.0.generation left.0.generation)
      (pointer_preference pointer right.0 left.0)

-- The filter on a pointer that was read: `.ok().flatten().filter(...)`.
unfoldable pub usable_pointer : Result VaultError (Option ActiveSlotV1) → Option ActiveSlotV1
usable_pointer (ok (some pointer)) = elim (validate_pointer pointer) [
  | ok _ ↦ some pointer
  | err _ ↦ none
]
usable_pointer _ = none

-- The filter on a slot that was read under the key of `expected`.
unfoldable pub usable_slot :
    SlotId → VaultId → Result VaultError (Option EncryptedVaultSlotV1) → List EncryptedVaultSlotV1
usable_slot expected vault_id (ok (some slot)) =
    if slot.slot == expected
    then elim (validate_slot slot vault_id) [ ok _ ↦ slot ∷ [] | err _ ↦ [] ]
    else []
usable_slot expected vault_id _ = []

-- The loop that keeps what decrypts to a container of the metadata's creation time.
unfoldable pub authenticated :
    {R : Type 0} → Platform R → Bytes → ℕ → List EncryptedVaultSlotV1 → List Candidate
authenticated platform dek created_at [] = []
authenticated platform dek created_at (slot ∷ slots) =
    let rest = authenticated platform dek created_at slots in
    elim (decrypt_container platform dek slot) [
      | err _ ↦ rest
      | ok container ↦ if container.created_at == created_at then (slot, container) ∷ rest else rest
    ]
