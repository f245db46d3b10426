-- ===== src/Base/Tests.antt =====
-- Boolean tests, the conditional, and equality of the types that the program compares.
use Prim.Native.Nat.{ℕ, ◌≤◌, compare, Ordering}
use Prim.Native.String.{String}
use mathlib.Core.Path.{◌≡◌, refl}
use mathlib.Core.Logic.{◌↔◌, ◌⊎◌, inl, inr}
use mathlib.Core.Bool.{Bool, true, false, ◌&&◌}
use mathlib.Core.Option.{Option, none, some}
use mathlib.Core.List.{List, [], ◌∷◌}
use native.Mathlib.Omega.{arith}
use text.Mathlib.Text.{◌==◌ as str_eq}
use text.Mathlib.TextEquality.{eq_iff}

-- These compute to `compare`, which `ground` and `grind` read with no lemma listed.
abbrev pub ltb : ℕ → ℕ → Bool
ltb a b = elim (compare a b) [ Ordering.lt ↦ true | _ ↦ false ]

abbrev pub leb : ℕ → ℕ → Bool
leb a b = elim (compare a b) [ Ordering.gt ↦ false | _ ↦ true ]

abbrev pub nat_eqb : ℕ → ℕ → Bool
nat_eqb a b = elim (compare a b) [ Ordering.eq ↦ true | _ ↦ false ]

infix 1 if◌then◌else◌
abbrev pub if◌then◌else◌ {ℓ} : {A : Type ℓ} → Bool → A → A → A
if true then x else y = x
if false then x else y = y

-- `(lo..=hi).contains(&x)`
abbrev pub in_range : ℕ → ℕ → ℕ → Bool
in_range lo hi x = leb lo x && leb x hi

pub nat_eqb_iff : (a b : ℕ) → (nat_eqb a b ≡ true) ↔ (a ≡ b)
nat_eqb_iff a b = ground arith

pub in_range_iff : (lo hi x : ℕ) → (in_range lo hi x ≡ true) ↔ ((lo ≤ x) × (x ≤ hi))
in_range_iff lo hi x = ground arith

-- To split on a computed value and keep the equation.
pub Bool-cases : (b : Bool) → (b ≡ true) ⊎ (b ≡ false)
Bool-cases true = inl refl
Bool-cases false = inr refl

pub Option-cases {ℓ} : {A : Type ℓ} (o : Option A) → (o ≡ none) ⊎ ((a : A) × (o ≡ some a))
Option-cases none = inl refl
Option-cases (some a) = inr (a, refl)

-- `PartialEq`, with what a derived implementation promises.
pub record Eq {ℓ} (A : Type ℓ) : Type ℓ where
  pub beq : A → A → Bool
  pub beq_iff : (x y : A) → (beq x y ≡ true) ↔ (x ≡ y)

infix 50 ◌==◌
abbrev pub ◌==◌ {ℓ} : {A : Type ℓ} ⦃e : Eq A⦄ → A → A → Bool
◌==◌ ⦃e⦄ = e.beq

pub ==_iff {ℓ} : {A : Type ℓ} ⦃e : Eq A⦄ (x y : A) → ((x == y) ≡ true) ↔ (x ≡ y)
==_iff ⦃e⦄ = e.beq_iff

pub ==_refl {ℓ} : {A : Type ℓ} ⦃e : Eq A⦄ (x : A) → (x == x) ≡ true
==_refl ⦃e⦄ x = (e.beq_iff x x).1 refl

instance abbrev pub nat_eq : Eq ℕ
nat_eq = record { beq = nat_eqb; beq_iff = nat_eqb_iff }

instance abbrev pub string_eq : Eq String
string_eq = record { beq = str_eq; beq_iff = eq_iff }

module _ {ℓ} {A : Type ℓ} ⦃e : Eq A⦄ where
  abbrev pub list_eqb : List A → List A → Bool
  list_eqb [] [] = true
  list_eqb [] (y ∷ ys) = false
  list_eqb (x ∷ xs) [] = false
  list_eqb (x ∷ xs) (y ∷ ys) = x == y && list_eqb xs ys

  pub list_eqb_iff : (xs ys : List A) → (list_eqb xs ys ≡ true) ↔ (xs ≡ ys)
  list_eqb_iff [] [] = (λ h. refl, λ h. refl)
  list_eqb_iff [] (y ∷ ys) = (λ h. cc, λ h. cc)
  list_eqb_iff (x ∷ xs) [] = (λ h. cc, λ h. cc)
  list_eqb_iff (x ∷ xs) (y ∷ ys) = ground (arith, ==_iff x y, list_eqb_iff xs ys)

  abbrev pub option_eqb : Option A → Option A → Bool
  option_eqb none none = true
  option_eqb none (some y) = false
  option_eqb (some x) none = false
  option_eqb (some x) (some y) = x == y

  pub option_eqb_iff : (x y : Option A) → (option_eqb x y ≡ true) ↔ (x ≡ y)
  option_eqb_iff none none = (λ h. refl, λ h. refl)
  option_eqb_iff none (some y) = (λ h. cc, λ h. cc)
  option_eqb_iff (some x) none = (λ h. cc, λ h. cc)
  option_eqb_iff (some x) (some y) = ground (arith, ==_iff x y)

  instance abbrev pub list_eq : Eq (List A)
  list_eq = record { beq = list_eqb; beq_iff = list_eqb_iff }

  instance abbrev pub option_eq : Eq (Option A)
  option_eq = record { beq = option_eqb; beq_iff = option_eqb_iff }
