-- ===== src/Vault/Members.antt =====
-- How the list operations of crates/vault-core/src/vault.rs act on sound and distinct entries.
use package.pocket_vault.Base.{
  ℕ, ◌≡◌, ◌≢◌, ◌≤◌, refl, sym, Bool, true, not, List, [], ◌∷◌, ◌++◌, length, All, find, all,
  remove_at, modify_first, none, arith, ==_iff,
}
use package.pocket_vault.Model.{EntryId, entry_id_eq, VaultEntry, VaultContainerV1}
use package.pocket_vault.Model.Spec.{MemberIsSound, Absent, DistinctIds}
use package.pocket_vault.Vault.Entries.{has_id}

-- A longer timeline keeps the entries sound.
pub All-mono :
    (c c' : VaultContainerV1) (entries : List VaultEntry)
    → c'.created_at ≡ c.created_at
    → c.updated_at ≤ c'.updated_at
    → All (MemberIsSound c) entries
    → All (MemberIsSound c') entries
All-mono c c' [] start finish h = tt
All-mono c c' (entry ∷ entries) start finish h =
    ground (arith, All-mono c c' entries start finish h.1)

pub All-append :
    (c : VaultContainerV1) (entries : List VaultEntry) (entry : VaultEntry)
    → All (MemberIsSound c) entries
    → MemberIsSound c entry
    → All (MemberIsSound c) (entries ++ entry ∷ [])
All-append c [] entry h e = (e, tt)
All-append c (x ∷ entries) entry h e = (h.0, All-append c entries entry h.1 e)

pub All-remove_at :
    (c : VaultContainerV1) (i : ℕ) (entries : List VaultEntry)
    → All (MemberIsSound c) entries
    → All (MemberIsSound c) (remove_at i entries)
All-remove_at c i [] h = tt
All-remove_at c ℕ.zero (x ∷ entries) h = h.1
All-remove_at c (ℕ.suc i) (x ∷ entries) h = (h.0, All-remove_at c i entries h.1)

module _ (id : EntryId) where
  pub all-Absent :
      (entries : List VaultEntry)
      → all (λ entry. not (has_id id entry)) entries ≡ true
      → Absent id entries
  all-Absent [] h = tt
  all-Absent (entry ∷ entries) h = ground (arith, ==_iff entry.id id, all-Absent entries)

  pub Absent-find :
      (entries : List VaultEntry) → Absent id entries → find (has_id id) entries ≡ none
  Absent-find [] h = refl
  Absent-find (entry ∷ entries) h = ground (arith, ==_iff entry.id id, Absent-find entries)

  pub Absent-append :
      (entries : List VaultEntry) (entry : VaultEntry)
      → Absent id entries
      → entry.id ≢ id
      → Absent id (entries ++ entry ∷ [])
  Absent-append [] entry h e = (e, tt)
  Absent-append (x ∷ entries) entry h e = (h.0, Absent-append entries entry h.1 e)

  pub Absent-remove_at :
      (i : ℕ) (entries : List VaultEntry) → Absent id entries → Absent id (remove_at i entries)
  Absent-remove_at i [] h = tt
  Absent-remove_at ℕ.zero (x ∷ entries) h = h.1
  Absent-remove_at (ℕ.suc i) (x ∷ entries) h = (h.0, Absent-remove_at i entries h.1)

  pub Absent-modify_first :
      (p : VaultEntry → Bool) (f : VaultEntry → VaultEntry) (entries : List VaultEntry)
      → ((e : VaultEntry) → (f e).id ≡ e.id)
      → Absent id entries
      → Absent id (modify_first p f entries)
  Absent-modify_first p f [] same h = tt
  Absent-modify_first p f (x ∷ entries) same h =
      ground (arith, same x, Absent-modify_first p f entries same)

pub DistinctIds-append :
    (entries : List VaultEntry) (entry : VaultEntry)
    → DistinctIds entries
    → Absent entry.id entries
    → DistinctIds (entries ++ entry ∷ [])
DistinctIds-append [] entry h a = (tt, tt)
DistinctIds-append (x ∷ entries) entry h a = (
  Absent-append x.id entries entry h.0 (λ e. a.0 (sym e)),
  DistinctIds-append entries entry h.1 a.1,
)

pub DistinctIds-remove_at :
    (i : ℕ) (entries : List VaultEntry) → DistinctIds entries → DistinctIds (remove_at i entries)
DistinctIds-remove_at i [] h = tt
DistinctIds-remove_at ℕ.zero (x ∷ entries) h = h.1
DistinctIds-remove_at (ℕ.suc i) (x ∷ entries) h =
    (Absent-remove_at x.id i entries h.0, DistinctIds-remove_at i entries h.1)

pub DistinctIds-modify_first :
    (p : VaultEntry → Bool) (f : VaultEntry → VaultEntry) (entries : List VaultEntry)
    → ((e : VaultEntry) → (f e).id ≡ e.id)
    → DistinctIds entries
    → DistinctIds (modify_first p f entries)
DistinctIds-modify_first p f [] same h = tt
DistinctIds-modify_first p f (x ∷ entries) same h = ground (
  arith,
  same x,
  Absent-modify_first x.id p f entries same h.0,
  DistinctIds-modify_first p f entries same h.1,
)

pub length-remove_at :
    (i : ℕ) (entries : List VaultEntry) → length (remove_at i entries) ≤ length entries
length-remove_at i [] = omega arith
length-remove_at ℕ.zero (x ∷ entries) = omega arith
length-remove_at (ℕ.suc i) (x ∷ entries) = omega (arith, length-remove_at i entries)

pub length-modify_first :
    (p : VaultEntry → Bool) (f : VaultEntry → VaultEntry) (entries : List VaultEntry)
    → length (modify_first p f entries) ≡ length entries
length-modify_first p f [] = refl
length-modify_first p f (x ∷ entries) = ground (arith, length-modify_first p f entries)

pub All-modify_first :
    (c : VaultContainerV1) (p : VaultEntry → Bool) (f : VaultEntry → VaultEntry)
    (entries : List VaultEntry)
    → ((e : VaultEntry) → MemberIsSound c e → MemberIsSound c (f e))
    → All (MemberIsSound c) entries
    → All (MemberIsSound c) (modify_first p f entries)
All-modify_first c p f [] keep h = tt
All-modify_first c p f (x ∷ entries) keep h =
    ground (arith, keep x h.0, All-modify_first c p f entries keep h.1)
