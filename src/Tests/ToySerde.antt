-- ===== src/Tests/ToySerde.antt =====
-- A concrete reading of JSON values, which keeps what serde documents.
use package.pocket_vault.Base.{
  ℕ, ◌≡◌, true, false, refl, String, List, Option, none, some, Bool-cases, inl, inr, ltb, ◌==◌,
  ==_iff, string_eq, if◌then◌else◌, arith,
}
use package.pocket_vault.Serde.Fields.{
  Value, null, number, text, array, object, Elements, Members, no_members, member, is_known,
  has_member, are_fields, Serde, SerdeLaws,
}

abbrev fields_of : List String → Value → Option Members
fields_of names (object members) = if are_fields names members then some members else none
fields_of names _ = none

abbrev name_of : Value → Option String
name_of (text name) = some name
name_of (object (member name null no_members)) = some name
name_of _ = none

abbrev number_of : ℕ → Value → Option ℕ
number_of bound (number n) = if ltb n bound then some n else none
number_of bound _ = none

abbrev text_of : Value → Option String
text_of (text s) = some s
text_of _ = none

abbrev elements_of : Value → Option Elements
elements_of (array values) = some values
elements_of _ = none

abbrev pub toy_serde : Serde
toy_serde = record {
  fields = fields_of;
  variant = name_of;
  unsigned = number_of;
  string = text_of;
  elements = elements_of;
}

are_fields-unknown :
    (names : List String) (key : String) (members : Members)
    → is_known key names ≡ false
    → has_member key members ≡ true
    → are_fields names members ≡ false
are_fields-unknown names key no_members unknown present = cc
are_fields-unknown names key (member name value members) unknown present =
    elim (Bool-cases (key == name)) [
      | inl same ↦ let here : key ≡ name = (==_iff key name).0 same in rw (← here, unknown)
      | inr differs ↦ ground (arith, differs, are_fields-unknown names key members unknown)
    ]

pub toy_serde-SerdeLaws : SerdeLaws toy_serde
toy_serde-SerdeLaws = record {
  fields-object = λ names members h. rw h;
  fields-unknown = λ names key members unknown present.
      rw (are_fields-unknown names key members unknown present);
  variant-text = λ name. refl;
  unsigned-number = λ bound n h. ground (arith, h);
  string-text = λ s. refl;
  elements-array = λ values. refl;
}
