-- ===== src/Wasm/Decimal.antt =====
-- Decimal texts, as their code points: `Display` of an integer, and `str::parse` to a u64.
use native.Mathlib.Nat.{pow-suc}
use package.pocket_vault.Base.{
  ℕ, zero, suc, ◌+◌, ◌*◌, ◌-◌, ◌/◌, ◌%◌, ◌^◌, ◌<◌, ◌≤◌, ◌≡◌, ◌∙◌, List, [], ◌∷◌, Option, none, some,
  Bool-cases, inl, inr, arith, ltb, in_range, ◌==◌, nat_eq, ==_iff, if◌then◌else◌,
}

-- The digits before `out`, in as many rounds as there may be digits.
unfoldable pub digits : ℕ → ℕ → List ℕ → List ℕ
digits zero n out = out
digits (suc rounds) n out =
    let rest = digits rounds (n / 10) ((48 + n % 10) ∷ out) in
    if ltb n 10 then (48 + n) ∷ out else rest

-- A u64 has at most 20 digits.
unfoldable pub decimal : ℕ → List ℕ
decimal n = digits 20 n []

-- The digits of `parse`, with its checked multiplication and addition.
unfoldable pub read_digits : ℕ → List ℕ → Option ℕ
read_digits n [] = some n
read_digits n (c ∷ cs) =
    let next = n * 10 + (c - 48) in
    let rest = read_digits next cs in
    if in_range 48 57 c then if ltb next 18446744073709551616 then rest else none else none

abbrev pub read_some : List ℕ → Option ℕ
read_some [] = none
read_some (c ∷ cs) = read_digits 0 (c ∷ cs)

-- `parse::<u64>()`: one `+` may stand in front.
unfoldable pub parse_u64 : List ℕ → Option ℕ
parse_u64 [] = none
parse_u64 (c ∷ cs) = if c == b'+' then read_some cs else read_digits 0 (c ∷ cs)

-- A digit text: not empty, and of digits only.
abbrev pub IsDigits : List ℕ → Type 0
IsDigits [] = ⊥
IsDigits (c ∷ cs) = (48 ≤ c) × (c ≤ 57)

digits-IsDigits : (rounds n : ℕ) (out : List ℕ) → IsDigits out → IsDigits (digits rounds n out)
unfolding digits
digits-IsDigits zero n out h = h
digits-IsDigits (suc rounds) n out h = elim (Bool-cases (ltb n 10)) [
  | inl small ↦ ground (arith, small)
  | inr large ↦
      let rest = digits-IsDigits rounds (n / 10) ((48 + n % 10) ∷ out) (omega arith) in
      rw (large, digits) rest
]

decimal-IsDigits : (n : ℕ) → IsDigits (decimal n)
unfolding decimal digits
decimal-IsDigits n = elim (Bool-cases (ltb n 10)) [
  | inl small ↦ ground (arith, small)
  | inr large ↦
      let rest = digits-IsDigits 19 (n / 10) ((48 + n % 10) ∷ []) (omega arith) in
      rw (large, digits) rest
]

-- With enough rounds, the digits are read as the number before what follows them.
read_digits-digits :
    (rounds n : ℕ) (out : List ℕ)
    → n < 10 ^ rounds
    → n < 18446744073709551616
    → read_digits 0 (digits rounds n out) ≡ read_digits n out
unfolding digits read_digits
read_digits-digits zero n out h fits = ground arith
read_digits-digits (suc rounds) n out h fits =
    let bound : n < 10 ^ rounds * 10 = rw pow-suc at h in
    elim (Bool-cases (ltb n 10)) [
      | inl small ↦ ground (arith, small)
      | inr large ↦
          let rest =
            read_digits-digits rounds (n / 10) ((48 + n % 10) ∷ out) (omega (arith, bound))
              (omega arith) in
          ground (arith, large, rest)
    ]

parse_u64-IsDigits : (cs : List ℕ) → IsDigits cs → parse_u64 cs ≡ read_digits 0 cs
unfolding parse_u64
parse_u64-IsDigits [] h = absurd h
parse_u64-IsDigits (c ∷ cs) h = ground (arith, ==_iff c b'+')

-- A u64 is read back from its decimal text.
pub parse_u64-decimal : (n : ℕ) → n < 18446744073709551616 → parse_u64 (decimal n) ≡ some n
unfolding decimal read_digits
parse_u64-decimal n h =
    parse_u64-IsDigits (decimal n) (decimal-IsDigits n) ∙ read_digits-digits 20 n [] (omega arith) h
