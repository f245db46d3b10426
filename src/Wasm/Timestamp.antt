-- ===== src/Wasm/Timestamp.antt =====
-- crates/vault-wasm/src/wasm.rs: `parse_timestamp`. A JavaScript number is an f64; each finite one is
-- a signed integer over a power of two, so the tests of the code are exact on that form.
use native.Mathlib.Nat.{
  mul-div_cancel, mul-mod_left, one-le-pow, div-add-mod', div-le_of_le-mul, mul-le-mul_right,
}
use package.pocket_vault.Base.{
  ℕ, ◌*◌, ◌/◌, ◌%◌, ◌^◌, ◌<◌, ◌≤◌, ◌≡◌, ◌↔◌, refl, String, List, [], ◌∷◌, Bool, true, false, not,
  ◌||◌, ltb, ◌==◌, nat_eq, none, some, Option-cases, inl, inr, Result, ok, ok_or, guard, ◌>>◌,
  arith,
}
use package.pocket_vault.Wasm.Decimal.{decimal, parse_u64, parse_u64-decimal, read_digits}

-- `finite negative m k` is m / 2 ^ k, or its negative; zero has both signs.
pub data F64 : Type 0 where
  nan : F64
  infinite : Bool → F64
  finite : Bool → ℕ → ℕ → F64

-- `is_finite`
abbrev pub is_finite : F64 → Bool
is_finite (finite _ _ _) = true
is_finite _ = false

-- `value < 0.0`
abbrev pub is_negative : F64 → Bool
is_negative nan = false
is_negative (infinite negative) = negative
is_negative (finite false m k) = false
is_negative (finite true m k) = ltb 0 m

-- `value.fract() != 0.0`; the fraction of what is not finite is no number.
abbrev pub has_fraction : F64 → Bool
has_fraction (finite _ m k) = not (m % 2 ^ k == 0)
has_fraction _ = true

-- `value > 9_007_199_254_740_991.0`
abbrev pub is_above_max_safe : F64 → Bool
is_above_max_safe nan = false
is_above_max_safe (infinite negative) = not negative
is_above_max_safe (finite true m k) = false
is_above_max_safe (finite false m k) = ltb (9007199254740991 * 2 ^ k) m

-- `to_string` of an integer; the code calls it on no other number.
abbrev pub display : F64 → List ℕ
display nan = b'N' ∷ b'a' ∷ b'N' ∷ []
display (infinite false) = b'i' ∷ b'n' ∷ b'f' ∷ []
display (infinite true) = b'-' ∷ b'i' ∷ b'n' ∷ b'f' ∷ []
display (finite false m k) = decimal (m / 2 ^ k)
display (finite true m k) = b'-' ∷ decimal (m / 2 ^ k)

-- `parse_timestamp`
unfoldable pub parse_timestamp : F64 → Result String ℕ
parse_timestamp value =
    guard
      (not (
        not (is_finite value)
        || (is_negative value || (has_fraction value || is_above_max_safe value))))
      "invalid_timestamp"
    >> ok_or (parse_u64 (display value)) "invalid_timestamp"

-- A sign is refused by `parse`.
parse_u64-sign : (cs : List ℕ) → parse_u64 (b'-' ∷ cs) ≡ none
unfolding parse_u64 read_digits
parse_u64-sign cs = ground arith

pow_pos : (k : ℕ) → 0 < 2 ^ k
pow_pos k = omega (arith, one-le-pow k 2 (omega arith))

-- What the tests of an integer in range establish.
accepted :
    (m k n : ℕ)
    → parse_timestamp (finite false m k) ≡ ok n
    → (m % 2 ^ k ≡ 0) × (m ≤ 9007199254740991 * 2 ^ k) × (parse_u64 (decimal (m / 2 ^ k)) ≡ some n)
unfolding parse_timestamp
accepted m k n h = elim (Option-cases (parse_u64 (decimal (m / 2 ^ k)))) [
  | inl bad ↦ absurd (ground (arith, bad))
  | inr (t, read) ↦ ground (arith, read)
]

within :
    (m k : ℕ)
    → m % 2 ^ k ≡ 0
    → m ≤ 9007199254740991 * 2 ^ k
    → (m ≡ m / 2 ^ k * 2 ^ k) × (m / 2 ^ k ≤ 9007199254740991)
within m k whole bound =
    (omega (arith, div-add-mod' m (2 ^ k), whole), div-le_of_le-mul (2 ^ k) (omega (arith, bound)))

-- A number is accepted, as `n`, exactly if it is the integer `n`, from 0 to 2 ^ 53 - 1, and not the
-- negative zero.
pub parse_timestamp_iff :
    (value : F64) (n : ℕ)
    → (parse_timestamp value ≡ ok n)
      ↔ ((m : ℕ) × (k : ℕ) × (value ≡ finite false m k) × (m ≡ n * 2 ^ k) × (n ≤ 9007199254740991))
unfolding parse_timestamp
parse_timestamp_iff nan n = (λ h. cc, λ (m, k, same, _, _). cc)
parse_timestamp_iff (infinite negative) n = (λ h. cc, λ (m, k, same, _, _). cc)
parse_timestamp_iff (finite true m k) n =
    (λ h. ground (arith, parse_u64-sign (decimal (m / 2 ^ k))), λ (m, k, same, _, _). cc)
parse_timestamp_iff (finite false m k) n = (
  λ h.
      let (whole, bound, read) = accepted m k n h in
      let (exact, small) = within m k whole bound in
      let same : m / 2 ^ k ≡ n =
        ground (arith, parse_u64-decimal (m / 2 ^ k) (omega (arith, small)), read) in
      (m, k, refl, rw (← same) exact, rw (← same) small),
  λ (m', k', same, whole, bound).
      let of_k : k ≡ k' = cc in
      let of_m : m ≡ n * 2 ^ k = ground (arith, same, whole) in
      let no_fraction : m % 2 ^ k ≡ 0 = rw of_m (mul-mod_left n (2 ^ k)) in
      let quotient : m / 2 ^ k ≡ n = rw of_m (mul-div_cancel n (pow_pos k)) in
      let in_range : m ≤ 9007199254740991 * 2 ^ k = rw of_m (mul-le-mul_right (2 ^ k) bound) in
      ground (arith, no_fraction, quotient, in_range, parse_u64-decimal n (omega (arith, bound))),
)
