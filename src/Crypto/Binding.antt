-- ===== src/Crypto/Binding.antt =====
-- What the associated data of crates/vault-core/src/crypto.rs bind.
use native.Mathlib.Nat.{pow-suc}
use package.pocket_vault.Base.{
  ℕ, zero, suc, ◌+◌, ◌*◌, ◌/◌, ◌%◌, ◌^◌, ◌<◌, ◌≡◌, refl, Bytes, List, [], ◌∷◌, ◌++◌, length,
  length-append, to_be_bytes, as_bytes, arith,
}
use package.pocket_vault.Model.{VaultId, SlotId, aad_byte}
use package.pocket_vault.Crypto.Aad.{push_aad_field, vault_slot_aad, vault_slot_object}

append-injective {ℓ} :
    {A : Type ℓ} (xs xs' ys ys' : List A)
    → length xs ≡ length xs'
    → xs ++ ys ≡ xs' ++ ys'
    → (xs ≡ xs') × (ys ≡ ys')
append-injective [] [] ys ys' l h = (refl, h)
append-injective [] (x' ∷ xs') ys ys' l h = absurd (omega arith)
append-injective (x ∷ xs) [] ys ys' l h = absurd (omega arith)
append-injective (x ∷ xs) (x' ∷ xs') ys ys' l h = ground (arith, append-injective xs xs' ys ys')

length-to_be_bytes : (w n : ℕ) → length (to_be_bytes w n) ≡ w
unfolding to_be_bytes
length-to_be_bytes zero n = refl
length-to_be_bytes (suc w) n =
    omega (
      arith,
      length-append (to_be_bytes w (n / 256)) (n % 256 ∷ []),
      length-to_be_bytes w (n / 256),
    )

-- A word is determined by its bytes.
pub to_be_bytes-injective :
    (w m n : ℕ) → m < 256 ^ w → n < 256 ^ w → to_be_bytes w m ≡ to_be_bytes w n → m ≡ n
unfolding to_be_bytes
to_be_bytes-injective zero m n hm hn h = omega arith
to_be_bytes-injective (suc w) m n hm hn h =
    let (high, low) =
      append-injective (to_be_bytes w (m / 256)) (to_be_bytes w (n / 256)) (m % 256 ∷ [])
        (n % 256 ∷ [])
        (omega (arith, length-to_be_bytes w (m / 256), length-to_be_bytes w (n / 256))) h in
    let same : m % 256 ≡ n % 256 = cc in
    let bound_m : m < 256 ^ w * 256 = rw pow-suc at hm in
    let bound_n : n < 256 ^ w * 256 = rw pow-suc at hn in
    let rest : m / 256 ≡ n / 256 =
      to_be_bytes-injective w (m / 256) (n / 256) (omega arith) (omega arith) high in
    omega arith

length-push :
    (output value : Bytes) → length (push_aad_field output value) ≡ length output + 4 + length value
unfolding push_aad_field
length-push output value = omega (
  arith,
  length-append output (to_be_bytes 4 (length value) ++ value),
  length-append (to_be_bytes 4 (length value)) value,
  length-to_be_bytes 4 (length value),
)

push-injective :
    (output output' value value' : Bytes)
    → length output ≡ length output'
    → length value ≡ length value'
    → push_aad_field output value ≡ push_aad_field output' value'
    → (output ≡ output') × (value ≡ value')
unfolding push_aad_field
push-injective output output' value value' l m h =
    let (same, rest) = append-injective output output' _ _ l h in
    let (_, tail) =
      append-injective (to_be_bytes 4 (length value)) (to_be_bytes 4 (length value')) value value'
        (omega (arith, length-to_be_bytes 4 (length value), length-to_be_bytes 4 (length value')))
        rest in
    (same, tail)

-- The part of `vault_slot_aad` before the slot and the generation.
abbrev owner_aad : VaultId → Bytes
owner_aad vault_id =
    push_aad_field
      (push_aad_field
        (push_aad_field (push_aad_field [] (as_bytes "pocket-vault")) vault_slot_object)
        (to_be_bytes 4 1))
      vault_id.bytes

length-owner_aad : (vault_id : VaultId) → length (owner_aad vault_id) ≡ 42 + length vault_id.bytes
length-owner_aad vault_id = omega (
  arith,
  length-push _ vault_id.bytes,
  length-push _ (to_be_bytes 4 1),
  length-push _ vault_slot_object,
  length-push [] (as_bytes "pocket-vault"),
  length-to_be_bytes 4 1,
)

-- The associated data of a slot determine the vault, the slot and the generation: for identifiers of
-- 16 bytes and 64-bit generations, a ciphertext sealed for one place has other data than any other
-- place has.
pub vault_slot_aad-injective :
    (v v' : VaultId) (s s' : SlotId) (g g' : ℕ)
    → length v.bytes ≡ 16
    → length v'.bytes ≡ 16
    → g < 256 ^ 8
    → g' < 256 ^ 8
    → vault_slot_aad v s g ≡ vault_slot_aad v' s' g'
    → (v ≡ v') × (s ≡ s') × (g ≡ g')
unfolding vault_slot_aad aad_byte
vault_slot_aad-injective v v' s s' g g' lv lv' hg hg' h =
    let lo = length-owner_aad v in
    let lo' = length-owner_aad v' in
    let place = push_aad_field (owner_aad v) (aad_byte s ∷ []) in
    let place' = push_aad_field (owner_aad v') (aad_byte s' ∷ []) in
    let (same_place, words) =
      push-injective place place' (to_be_bytes 8 g) (to_be_bytes 8 g')
        (omega (
          arith,
          length-push (owner_aad v) (aad_byte s ∷ []),
          length-push (owner_aad v') (aad_byte s' ∷ []),
          lo,
          lo',
        ))
        (omega (arith, length-to_be_bytes 8 g, length-to_be_bytes 8 g')) h in
    let (same_owner, slots) =
      push-injective (owner_aad v) (owner_aad v') (aad_byte s ∷ []) (aad_byte s' ∷ [])
        (omega (arith, lo, lo')) refl same_place in
    let (_, ids) = push-injective _ _ v.bytes v'.bytes refl (omega arith) same_owner in
    (ground (arith, ids), ground (arith, slots), to_be_bytes-injective 8 g g' hg hg' words)
