-- ===== src/Base/Lists.antt =====
-- Lists measured and indexed by native numbers, under the library's names, and the iterator
-- methods that the program calls.
use Prim.Native.Nat.{ℕ, zero, suc, ◌+◌}
use mathlib.Core.Path.{◌≡◌, sym, subst}
use mathlib.Core.Logic.{◌⊎◌, inl, inr}
use mathlib.Core.Bool.{Bool, true, ◌&&◌}
use mathlib.Core.Option
use mathlib.Core.Option.{Option, none, some}
use mathlib.Core.List.{List, [], ◌∷◌, ◌++◌}
use native.Mathlib.Omega.{arith}
use package.pocket_vault.Base.Tests.{if◌then◌else◌}

abbrev pub All {ℓ κ} : {A : Type ℓ} → (A → Type κ) → List A → Type κ
All P [] = Unit
All P (x ∷ xs) = P x × All P xs

module _ {ℓ} {A : Type ℓ} where
  abbrev pub length : List A → ℕ
  length [] = 0
  length (x ∷ xs) = suc (length xs)

  abbrev pub get_elem? : List A → ℕ → Option A
  get_elem? [] i = none
  get_elem? (x ∷ xs) zero = some x
  get_elem? (x ∷ xs) (suc i) = get_elem? xs i

  pub length-append : (xs ys : List A) → length (xs ++ ys) ≡ length xs + length ys
  length-append [] ys = omega arith
  length-append (x ∷ xs) ys = omega (arith, length-append xs ys)

  -- `iter().find(p)`
  abbrev pub find : (A → Bool) → List A → Option A
  find p [] = none
  find p (x ∷ xs) = if p x then some x else find p xs

  -- `iter().all(p)`
  abbrev pub all : (A → Bool) → List A → Bool
  all p [] = true
  all p (x ∷ xs) = p x && all p xs

  -- `iter().position(p)`
  abbrev pub position : (A → Bool) → List A → Option ℕ
  position p [] = none
  position p (x ∷ xs) = if p x then some 0 else Option.map suc (position p xs)

  -- `Vec::remove(index)`; the source panics out of range, and never calls it there.
  abbrev pub remove_at : ℕ → List A → List A
  remove_at i [] = []
  remove_at zero (x ∷ xs) = xs
  remove_at (suc i) (x ∷ xs) = x ∷ remove_at i xs

  -- A write through the reference that `iter_mut().find(p)` returns.
  abbrev pub modify_first : (A → Bool) → (A → A) → List A → List A
  modify_first p f [] = []
  modify_first p f (x ∷ xs) = if p x then f x ∷ xs else x ∷ modify_first p f xs

-- An element, with its place.
abbrev pub Elem : {A : Type 0} → A → List A → Type 0
Elem a [] = ⊥
Elem a (x ∷ xs) = (a ≡ x) ⊎ Elem a xs

pub Elem-append_left : {A : Type 0} (a : A) (xs ys : List A) → Elem a xs → Elem a (xs ++ ys)
Elem-append_left a [] ys e = absurd e
Elem-append_left a (x ∷ xs) ys (inl here) = inl here
Elem-append_left a (x ∷ xs) ys (inr there) = inr (Elem-append_left a xs ys there)

pub Elem-append_right : {A : Type 0} (a : A) (xs ys : List A) → Elem a ys → Elem a (xs ++ ys)
Elem-append_right a [] ys e = e
Elem-append_right a (x ∷ xs) ys e = inr (Elem-append_right a xs ys e)

pub Elem-append : {A : Type 0} (a : A) (xs ys : List A) → Elem a (xs ++ ys) → Elem a xs ⊎ Elem a ys
Elem-append a [] ys e = inr e
Elem-append a (x ∷ xs) ys (inl here) = inl (inl here)
Elem-append a (x ∷ xs) ys (inr there) = elim (Elem-append a xs ys there) [
  | inl left ↦ inl (inr left)
  | inr right ↦ inr right
]

pub All-Elem : {A : Type 0} (P : A → Type 0) (xs : List A) (a : A) → All P xs → Elem a xs → P a
All-Elem P [] a all e = absurd e
All-Elem P (x ∷ xs) a all (inl here) = subst P (sym here) all.0
All-Elem P (x ∷ xs) a all (inr there) = All-Elem P xs a all.1 there
