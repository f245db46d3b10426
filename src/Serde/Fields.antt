-- ===== src/Serde/Fields.antt =====
-- JSON values, and serde's part in reading them, which is a parameter.
use package.pocket_vault.Base.{
  ℕ, Bool, true, false, not, ◌&&◌, String, List, [], ◌∷◌, Option, none, some, ◌<◌, ◌≡◌, ◌==◌,
  string_eq, if◌then◌else◌,
}
use mathlib.Core.Option

-- `other_number` is a number that no unsigned integer type holds.
mutual
  pub data Value : Type 0 where
    null : Value
    boolean : Bool → Value
    number : ℕ → Value
    other_number : String → Value
    text : String → Value
    array : Elements → Value
    object : Members → Value

  pub data Elements : Type 0 where
    no_elements : Elements
    more_elements : Value → Elements → Elements

  pub data Members : Type 0 where
    no_members : Members
    member : String → Value → Members → Members

-- The value of the first member of a name.
abbrev pub get : String → Members → Option Value
get name no_members = none
get name (member key value members) = if name == key then some value else get name members

-- Each member has one of the names, and no name occurs twice.
abbrev pub is_known : String → List String → Bool
is_known key [] = false
is_known key (name ∷ names) = if key == name then true else is_known key names

abbrev pub has_member : String → Members → Bool
has_member name no_members = false
has_member name (member key value members) = if name == key then true else has_member name members

abbrev pub are_fields : List String → Members → Bool
are_fields names no_members = true
are_fields names (member key value members) =
    is_known key names && (not (has_member key members) && are_fields names members)

infixl 5 ◌>>=◌
-- The `?` operator on what is refused.
abbrev pub ◌>>=◌ {ℓ κ} : {A : Type ℓ} {B : Type κ} → Option A → (A → Option B) → Option B
none >>= read = none
some a >>= read = read a

-- A field that must be there, and one of an `Option` type.
abbrev pub required : {A : Type 0} → (Value → Option A) → String → Members → Option A
required read name members = get name members >>= read

abbrev pub read_nullable : {A : Type 0} → (Value → Option A) → Value → Option (Option A)
read_nullable read null = some none
read_nullable read value = Option.map some (read value)

abbrev pub optional : {A : Type 0} → (Value → Option A) → String → Members → Option (Option A)
optional read name members = elim (get name members) [
  | none ↦ some none
  | some value ↦ read_nullable read value
]

-- What the derived implementations and those of the standard types make of a value: a struct's
-- members by the names of its fields, under `deny_unknown_fields`; the name of a unit variant; an
-- unsigned integer below a bound; a text; and the elements of a `Vec`.
pub record Serde : Type 0 where
  pub fields : List String → Value → Option Members
  pub variant : Value → Option String
  pub unsigned : ℕ → Value → Option ℕ
  pub string : Value → Option String
  pub elements : Value → Option Elements

-- What serde documents of them.
pub record SerdeLaws (serde : Serde) : Type 0 where
  pub fields-object :
      (names : List String) (members : Members)
      → are_fields names members ≡ true
      → serde.fields names (object members) ≡ some members
  pub fields-unknown :
      (names : List String) (key : String) (members : Members)
      → is_known key names ≡ false
      → has_member key members ≡ true
      → serde.fields names (object members) ≡ none
  pub variant-text : (name : String) → serde.variant (text name) ≡ some name
  pub unsigned-number : (bound n : ℕ) → n < bound → serde.unsigned bound (number n) ≡ some n
  pub string-text : (s : String) → serde.string (text s) ≡ some s
  pub elements-array : (values : Elements) → serde.elements (array values) ≡ some values
