-- ===== src/Vault/Refusals.antt =====
-- crates/vault-core/src/vault.rs: why a call on entries fails, and what one changes of the map.
use Prim.Native.Nat.{max}
use package.pocket_vault.Base.{
  ℕ, ◌≡◌, String, ◌+◌, List, [], ◌∷◌, length, Option, none, some, arith, Result, ok, err, all, find,
  not, false, Option-cases, Bool-cases, count, len, inl, inr, position, remove_at, in_range, ◌==◌,
  ==_iff, if◌then◌else◌,
}
use package.pocket_vault.Error.{VaultError, random_generation_failed, invalid_container}
use package.pocket_vault.Model.{EntryId, entry_id_eq, VaultEntry, validate_entry_fields}
use package.pocket_vault.Model.Validation.{validate_entry_fields_iff}
use package.pocket_vault.Model.Spec.{FieldsFit}
use package.pocket_vault.Platform.{Platform}
use package.pocket_vault.Crypto.{random_array}
use package.pocket_vault.Vault.Entries.{has_id, draw_id}
use package.pocket_vault.Vault.Ledger.{
  Ledger, Written, ledger_of, id_of, Draws, exhausted, broken, free, taken,
}
use package.pocket_vault.Vault.Session.{UnlockedVault}
use package.pocket_vault.Vault.Members.{all-Absent, Absent-find}

-- A validation that fails says why in a text.
pub validate_entry_fields-err :
    (title secret : String) (description : Option String) (e : VaultError)
    → validate_entry_fields title secret description ≡ err e
    → (text : String) × (e ≡ invalid_container text) × (¬ FieldsFit title secret description)
unfolding validate_entry_fields
validate_entry_fields-err title secret description e h =
    let text : (text : String) × (e ≡ invalid_container text) =
      elim (Bool-cases (in_range 1 200 (count title))) [
        | inr long ↦ ("title length is out of bounds", ground (arith, long))
        | inl fits ↦ elim (Bool-cases (in_range 1 4096 (len secret))) [
          | inr long ↦ ("secret length is out of bounds", ground (arith, fits, long))
          | inl fits' ↦ ("description length is out of bounds", ground (arith, fits, fits'))
        ]
      ] in
    (
      text.0,
      text.1,
      λ fit. absurd (ground (arith, (validate_entry_fields_iff title secret description).1 fit)),
    )

pub Written-where :
    (m : Ledger) (id : EntryId) (entry : Option VaultEntry) (now : ℕ) (m' : Ledger)
    → ((j : EntryId) → m'.at j ≡ (if id == j then entry else m.at j))
    → m'.updated_at ≡ max now m.updated_at
    → Written m id entry now m'
Written-where m id entry now m' maps time = record {
  here = ground (arith, maps id, ==_iff id id);
  elsewhere = λ j ne. ground (arith, maps j, ==_iff id j);
  time = time;
}

pub length-remove_at_found :
    (id : EntryId) (entries : List VaultEntry) (i : ℕ)
    → position (has_id id) entries ≡ some i
    → length entries ≡ length (remove_at i entries) + 1
length-remove_at_found id [] i h = cc
length-remove_at_found id (x ∷ entries) ℕ.zero h = omega arith
length-remove_at_found id (x ∷ entries) (ℕ.suc i) h =
    ground (arith, length-remove_at_found id entries i)

all-find :
    (id : EntryId) (entries : List VaultEntry)
    → all (λ entry. not (has_id id entry)) entries ≡ false
    → (entry : VaultEntry) × (find (has_id id) entries ≡ some entry)
all-find id [] h = cc
all-find id (x ∷ entries) h = elim (Bool-cases (has_id id x)) [
  | inl same ↦ (x, ground (arith, same))
  | inr differs ↦
      let (entry, found) = all-find id entries (ground (arith, differs)) in
      (entry, ground (arith, differs, found))
]

abbrev pub drawn : Result VaultError EntryId → Option EntryId
drawn (ok id) = some id
drawn (err _) = none

module _ {R : Type 0} (platform : Platform R) where
  pub draw_id-err :
      (attempts : ℕ) (entries : List VaultEntry) (rng : R) (e : VaultError)
      → (draw_id platform attempts entries rng).0 ≡ err e
      → e ≡ random_generation_failed
  unfolding draw_id random_array
  draw_id-err ℕ.zero entries rng e h = cc
  draw_id-err (ℕ.suc attempts) entries rng e h = elim (Option-cases (platform.fill 16 rng).0) [
    | inl none_left ↦ ground (arith, none_left)
    | inr (bytes, drawn) ↦
        ground (arith, drawn, draw_id-err attempts entries (platform.fill 16 rng).1 e)
  ]

  -- The loop draws as the abstract machine does.
  pub draw_id-Draws :
      (attempts : ℕ) (vault : UnlockedVault) (rng : R)
      → Draws platform
          (ledger_of vault)
          attempts
          rng
          (drawn (draw_id platform attempts vault.container.entries rng).0)
          (draw_id platform attempts vault.container.entries rng).1
  unfolding draw_id random_array
  draw_id-Draws ℕ.zero vault rng = exhausted rng
  draw_id-Draws (ℕ.suc attempts) vault rng = elim (Option-cases (platform.fill 16 rng).0) [
    | inl none_left ↦ rw (none_left, draw_id, random_array) (broken attempts rng none_left)
    | inr (bytes, given) ↦
        let entries = vault.container.entries in
        elim (Bool-cases (all (λ entry. not (has_id (id_of bytes) entry)) entries)) [
          | inl fresh ↦
              rw (given, fresh, draw_id, random_array)
                (free attempts rng bytes given
                  (Absent-find (id_of bytes) entries (all-Absent (id_of bytes) entries fresh)))
          | inr used ↦
              let (entry, found) = all-find (id_of bytes) entries used in
              rw (given, used, draw_id, random_array)
                (taken attempts rng _ bytes entry _ given found
                  (draw_id-Draws attempts vault (platform.fill 16 rng).1))
        ]
  ]
