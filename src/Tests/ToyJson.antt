-- ===== src/Tests/ToyJson.antt =====
-- A concrete engine of JSON texts, which knows one value and its text.
use package.pocket_vault.Base.{
  Bool, true, false, ◌≡◌, ◌⊎◌, refl, String, Option, none, some, ◌==◌, ==_iff, Eq, nat_eq,
  string_eq, if◌then◌else◌, Option-cases, inl, inr, arith, ap,
}
use package.pocket_vault.Serde.Fields.{
  Value, null, number, text, array, object, Elements, no_elements, more_elements, Members,
  no_members, member,
}
use package.pocket_vault.Serde.Codecs.{JsonText, JsonTextLaws}

unfoldable pub true_or_false : (b : Bool) → (b ≡ true) ⊎ (b ≡ false)
true_or_false true = inl refl
true_or_false false = inr refl

-- Whether two values are the same, with the reason why.
unfoldable pub same_at : {A : Type 0} ⦃e : Eq A⦄ → (a b : A) → Option (a ≡ b)
same_at a b = elim (true_or_false (a == b)) [ inl e ↦ some ((==_iff a b).0 e) | inr _ ↦ none ]

unfoldable mutual
  pub same_value : (x y : Value) → Option (x ≡ y)
  same_value null null = some refl
  same_value (number n) (number m) = elim (same_at n m) [
    | none ↦ none
    | some e ↦ some (ap number e)
  ]
  same_value (text s) (text t) = elim (same_at s t) [ none ↦ none | some e ↦ some (ap text e) ]
  same_value (array xs) (array ys) = elim (same_elements xs ys) [
    | none ↦ none
    | some e ↦ some (ap array e)
  ]
  same_value (object xs) (object ys) = elim (same_members xs ys) [
    | none ↦ none
    | some e ↦ some (ap object e)
  ]
  same_value _ _ = none

  pub same_elements : (xs ys : Elements) → Option (xs ≡ ys)
  same_elements no_elements no_elements = some refl
  same_elements (more_elements x xs) (more_elements y ys) = elim (same_value x y) [
    | none ↦ none
    | some e ↦ elim (same_elements xs ys) [
      | none ↦ none
      | some es ↦ some (λ i. more_elements (e i) (es i))
    ]
  ]
  same_elements _ _ = none

  pub same_members : (xs ys : Members) → Option (xs ≡ ys)
  same_members no_members no_members = some refl
  same_members (member k x xs) (member j y ys) = elim (same_at k j) [
    | none ↦ none
    | some named ↦ elim (same_value x y) [
      | none ↦ none
      | some e ↦ elim (same_members xs ys) [
        | none ↦ none
        | some es ↦ some (λ i. member (named i) (e i) (es i))
      ]
    ]
  ]
  same_members _ _ = none

-- The engine whose one text stands for a value.
unfoldable pub one_value : Value → JsonText String
one_value known = record {
  write = λ v. elim (same_value v known) [ none ↦ none | some _ ↦ some "known" ];
  read = λ t. if t == "known" then some known else none;
}

pub one_value-JsonTextLaws : (known : Value) → JsonTextLaws (one_value known)
unfolding one_value
one_value-JsonTextLaws known = record {
  read-write = λ v t h. elim (Option-cases (same_value v known)) [
    | inl other ↦ absurd (ground (arith, other))
    | inr (e, here) ↦ let named : "known" ≡ t = ground (arith, here) in rw (← named, e) refl
  ];
}
