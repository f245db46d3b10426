-- ===== src/Base/Outcome.antt =====
-- `Result`, and the combinators that the program uses on it.
use mathlib.Core.Path.{◌≡◌, refl}
use mathlib.Core.Logic.{◌⊎◌, inl, inr}
use mathlib.Core.Bool.{Bool, true, false}
use mathlib.Core.Option.{Option, none, some}

pub data Result {ℓ κ} (E : Type ℓ) (A : Type κ) : Type (ℓ ⊔ κ) where
  ok : A → Result E A
  err : E → Result E A

module _ {ℓ κ μ} {E : Type ℓ} {A : Type κ} {B : Type μ} where
  infixl 5 ◌>>=◌ ◌>>◌
  -- The `?` operator.
  abbrev pub ◌>>=◌ : Result E A → (A → Result E B) → Result E B
  ok a >>= f = f a
  err e >>= f = err e

  abbrev pub ◌>>◌ : Result E A → Result E B → Result E B
  ok a >> k = k
  err e >> k = err e

  -- What a chain that succeeds has passed through.
  pub >>=-eq-ok :
      (r : Result E A) (next : A → Result E B) {out : B}
      → (r >>= next) ≡ ok out
      → (value : A) × (r ≡ ok value) × (next value ≡ ok out)
  >>=-eq-ok (err failure) next h = cc
  >>=-eq-ok (ok value) next h = (value, refl, h)

  pub >>-eq-ok :
      (m : Result E A) (k : Result E B) {b : B}
      → (m >> k) ≡ ok b
      → (a : A) × (m ≡ ok a) × (k ≡ ok b)
  >>-eq-ok (ok a) k h = (a, refl, h)
  >>-eq-ok (err e) k h = cc

  abbrev pub map_ok : (A → B) → Result E A → Result E B
  map_ok f (ok a) = ok (f a)
  map_ok f (err e) = err e

  abbrev pub map_err : (E → B) → Result E A → Result B A
  map_err f (ok a) = ok a
  map_err f (err e) = err (f e)

module _ {ℓ κ} {E : Type ℓ} {A : Type κ} where
  -- `ok_or`, and `map_err(|_| e)` on a call that is modelled by `Option`.
  abbrev pub ok_or : Option A → E → Result E A
  ok_or none e = err e
  ok_or (some a) e = ok a

  -- `.ok()`
  abbrev pub to_option : Result E A → Option A
  to_option (ok a) = some a
  to_option (err e) = none

  pub Result-cases : (r : Result E A) → ((a : A) × (r ≡ ok a)) ⊎ ((e : E) × (r ≡ err e))
  Result-cases (ok a) = inl (a, refl)
  Result-cases (err e) = inr (e, refl)

-- An early `return Err(e)` unless the test holds.
abbrev pub guard {ℓ} : {E : Type ℓ} → Bool → E → Result E (Unit {0})
guard true e = ok tt
guard false e = err e
