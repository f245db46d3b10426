-- ===== src/Base/Exec.antt =====
-- Methods that change a state and may fail. What was written before a failure stays written, so
-- the state comes back beside the error too.
use mathlib.Core.Path.{◌≡◌, refl}
use package.pocket_vault.Base.Outcome.{Result, ok, err, map_err as on_error}

abbrev pub Exec {ℓ} : Type ℓ → Type ℓ → Type ℓ → Type ℓ
Exec S E A = S → Result E A × S

module _ {ℓ} {S E A : Type ℓ} where
  abbrev pub pure : A → Exec S E A
  pure a s = (ok a, s)

  abbrev pub raise : E → Exec S E A
  raise e s = (err e, s)

  -- A call that neither reads nor changes the state.
  abbrev pub lift : Result E A → Exec S E A
  lift r s = (r, s)

module _ {ℓ} {S E A B : Type ℓ} where
  abbrev pub continue : Result E A → (A → Exec S E B) → Exec S E B
  continue (ok a) f s = f a s
  continue (err e) f s = (err e, s)

  infixl 5 ◌>>=◌ ◌>>◌
  abbrev pub ◌>>=◌ : Exec S E A → (A → Exec S E B) → Exec S E B
  ◌>>=◌ m f s = let (r, s') = m s in continue r f s'

  abbrev pub ◌>>◌ : Exec S E A → Exec S E B → Exec S E B
  m >> k = m >>= λ _. k

  -- `From` on the error of a call that `?` propagates.
  abbrev pub map_err : (E → B) → Exec S E A → Exec S B A
  map_err f m s = let (r, s') = m s in (on_error f r, s')

  invert :
      (r : Result E A × S) (f : A → Exec S E B) {b : B} {s' : S}
      → (let (q, t) = r in continue q f t) ≡ (ok b, s')
      → (a : A) × (t : S) × (r ≡ (ok a, t)) × (f a t ≡ (ok b, s'))
  invert (ok a, t) f h = (a, t, refl, h)
  invert (err e, t) f h = cc

  -- What a chain that succeeds has passed through.
  pub >>=-eq-ok :
      (m : Exec S E A) (f : A → Exec S E B) (s : S) {b : B} {s' : S}
      → (m >>= f) s ≡ (ok b, s')
      → (a : A) × (t : S) × (m s ≡ (ok a, t)) × (f a t ≡ (ok b, s'))
  >>=-eq-ok m f s h = invert (m s) f h
