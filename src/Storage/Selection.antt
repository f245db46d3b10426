-- ===== src/Storage/Selection.antt =====
-- crates/vault-core/src/storage.rs: the order by which `open` selects a slot.
use Prim.Native.Nat.{Ordering}
use package.pocket_vault.Base.{
  ℕ, ◌≡◌, ◌≢◌, ◌≤◌, ◌⊎◌, inl, inr, refl, true, Bytes, List, [], ◌∷◌, Option, some, ok, Result-cases,
  Bool-cases, arith, All, Elem, ◌==◌, ==_iff, nat_eq,
}
use package.pocket_vault.Model.{EncryptedVaultSlotV1, ActiveSlotV1, VaultContainerV1}
use package.pocket_vault.Platform.{Platform}
use package.pocket_vault.Vault.{decrypt_container}
use package.pocket_vault.Storage.Select.{
  Candidate, insert_by, sort_by, points_to, candidate_order, authenticated,
}
use package.pocket_vault.Storage.Repository.{first}

-- `best` is preferred to `c`: no older, and on equal generations pointed to if `c` is.
pub record Preferred (pointer : Option ActiveSlotV1) (best c : Candidate) : Type 0 where
  pub newer : c.0.generation ≤ best.0.generation
  pub tie :
      c.0.generation ≡ best.0.generation
      → points_to pointer c.0 ≡ true
      → points_to pointer best.0 ≡ true

pub gt-cases : (o : Ordering) → (o ≡ Ordering.gt) ⊎ (o ≢ Ordering.gt)
gt-cases Ordering.lt = inr (λ e. cc)
gt-cases Ordering.eq = inr (λ e. cc)
gt-cases Ordering.gt = inl refl

module _ (pointer : Option ActiveSlotV1) where
  Preferred-trans :
      (a b c : Candidate) → Preferred pointer a b → Preferred pointer b c → Preferred pointer a c
  Preferred-trans a b c p q = record {
    newer = omega (arith, p.newer, q.newer);
    tie =
        λ e t. p.tie (omega (arith, p.newer, q.newer)) (q.tie (omega (arith, p.newer, q.newer)) t);
  }

  -- The closure puts no less preferred candidate first.
  candidate_order-Preferred :
      (x y : Candidate)
      → ((candidate_order pointer x y ≡ Ordering.gt) × Preferred pointer y x)
        ⊎ ((candidate_order pointer x y ≢ Ordering.gt) × Preferred pointer x y)
  unfolding candidate_order
  candidate_order-Preferred x y = elim (gt-cases (candidate_order pointer x y)) [
    | inl later ↦
        inl (later, record { newer = ground (arith, later); tie = λ e t. ground (arith, later) })
    | inr not_later ↦ inr (
      not_later,
      record { newer = ground (arith, not_later); tie = λ e t. ground (arith, not_later) },
    )
  ]

  All-Preferred :
      (a b : Candidate) (cs : List Candidate)
      → Preferred pointer a b
      → All (Preferred pointer b) cs
      → All (Preferred pointer a) cs
  All-Preferred a b [] p h = tt
  All-Preferred a b (c ∷ cs) p h = (Preferred-trans a b c p h.0, All-Preferred a b cs p h.1)

  -- Putting `x` in front of a sorted list, or behind its head.
  first-insert_by :
      (x : Candidate) (ys : List Candidate)
      → (first (insert_by (candidate_order pointer) x ys) ≡ some x)
          × ((y : Candidate) → first ys ≡ some y → Preferred pointer x y)
        ⊎ ((y : Candidate) × (first ys ≡ some y)
            × (first (insert_by (candidate_order pointer) x ys) ≡ some y)
            × Preferred pointer y x)
  first-insert_by x [] = inl (refl, λ y e. cc)
  first-insert_by x (y ∷ ys) = elim (candidate_order-Preferred x y) [
    | inl (later, better) ↦ inr (y, refl, ground (arith, later), better)
    | inr (not_later, better) ↦
        inl
          (ground (arith, not_later), λ z e. let same : y ≡ z = ground arith in rw (← same) better)
  ]

  -- The first of the sorted candidates is one of them, and is preferred to all.
  pub first-sort_by :
      (x : Candidate) (xs : List Candidate)
      → (best : Candidate) × (first (sort_by (candidate_order pointer) (x ∷ xs)) ≡ some best)
        × Elem best (x ∷ xs)
        × All (Preferred pointer best) (x ∷ xs)
  first-sort_by x [] = (x, refl, inl refl, (record { newer = omega arith; tie = λ e t. t }, tt))
  first-sort_by x (y ∷ xs) =
      let (b, is_first, elem, all) = first-sort_by y xs in
      elim (first-insert_by x (sort_by (candidate_order pointer) (y ∷ xs))) [
        | inl (front, better) ↦ (
          x,
          front,
          inl refl,
          (
            record { newer = omega arith; tie = λ e t. t },
            All-Preferred x b (y ∷ xs) (better b is_first) all,
          ),
        )
        | inr (z, is_z, front, better) ↦
            let same : z ≡ b = ground (arith, is_first, is_z) in
            (b, rw (← same) front, inr elem, (rw (← same) better, all))
      ]

module _ {R : Type 0} (platform : Platform R) (dek : Bytes) (created_at : ℕ) where
  -- A slot is kept, with what it decrypts to, exactly if it decrypts to a container of that time.
  pub Elem-authenticated :
      (slots : List EncryptedVaultSlotV1) (slot : EncryptedVaultSlotV1) (c : VaultContainerV1)
      → Elem slot slots
      → decrypt_container platform dek slot ≡ ok c
      → c.created_at ≡ created_at
      → Elem (slot, c) (authenticated platform dek created_at slots)
  unfolding authenticated
  Elem-authenticated [] slot c e opens born = absurd e
  Elem-authenticated (x ∷ slots) slot c (inl here) opens born =
      let opens' : decrypt_container platform dek x ≡ ok c = rw here at opens in
      let timely : (c.created_at == created_at) ≡ true = (==_iff c.created_at created_at).1 born in
      let found : Elem {A = Candidate} (slot, c)
          ((x, c) ∷ authenticated platform dek created_at slots) =
        inl (ground arith) in
      rw (opens', authenticated, timely) found
  Elem-authenticated (x ∷ slots) slot c (inr there) opens born =
      let rest = Elem-authenticated slots slot c there opens born in
      elim (Result-cases (decrypt_container platform dek x)) [
        | inr (e, failed) ↦ rw (failed, authenticated) rest
        | inl (c', opened) ↦ elim (Bool-cases (c'.created_at == created_at)) [
          | inl same ↦ rw (opened, authenticated, same) (inr rest)
          | inr other ↦ rw (opened, authenticated, other) rest
        ]
      ]

  pub authenticated-Elem :
      (slots : List EncryptedVaultSlotV1) (c : Candidate)
      → Elem c (authenticated platform dek created_at slots)
      → Elem c.0 slots
        × (decrypt_container platform dek c.0 ≡ ok c.1)
        × (c.1.created_at ≡ created_at)
  unfolding authenticated
  authenticated-Elem [] c e = absurd e
  authenticated-Elem (x ∷ slots) c e =
      let more = λ (rest : Elem c (authenticated platform dek created_at slots)).
        let (elem, opens, born) = authenticated-Elem slots c rest in
        let here_or_there : Elem c.0 (x ∷ slots) = inr elem in
        let all : Elem c.0 (x ∷ slots)
            × (decrypt_container platform dek c.0 ≡ ok c.1)
            × (c.1.created_at ≡ created_at) =
          (here_or_there, opens, born) in
        all in
      elim (Result-cases (decrypt_container platform dek x)) [
        | inr (b, failed) ↦ more (rw (failed, authenticated) at e)
        | inl (c', opened) ↦ elim (Bool-cases (c'.created_at == created_at)) [
          | inr other ↦ more (rw (opened, authenticated, other) at e)
          | inl same ↦
              let e' : Elem {A = Candidate} c
                  ((x, c') ∷ authenticated platform dek created_at slots) =
                rw (opened, authenticated, same) at e in
              elim e' [
                | inr rest ↦ more rest
                | inl here ↦
                    (inl (ground arith), ground (arith, opened, here), ground (arith, same))
              ]
        ]
      ]
