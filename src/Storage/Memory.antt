-- ===== src/Storage/Memory.antt =====
-- crates/vault-core/src/storage.rs: `MemoryStorage`. The maps and sets are lists; no code iterates
-- over them.
use package.pocket_vault.Base.{
  ◌≡◌, refl, Bool, false, String, List, [], ◌∷◌, Option, none, some, ◌==◌, ==_iff, string_eq,
  if◌then◌else◌, ◌||◌, ok, err, arith, inl, inr, Bool-cases,
}
use package.pocket_vault.Error.{read_failed, write_failed, remove_failed}
use package.pocket_vault.Storage.Adapter.{DeviceStorage, StorageLaws}

abbrev pub lookup : String → List (String × String) → Option String
lookup k [] = none
lookup k ((j, v) ∷ m) = if j == k then some v else lookup k m

abbrev pub insert : String → String → List (String × String) → List (String × String)
insert k v [] = (k, v) ∷ []
insert k v ((j, w) ∷ m) = let rest = insert k v m in if j == k then (k, v) ∷ m else (j, w) ∷ rest

abbrev pub erase : String → List (String × String) → List (String × String)
erase k [] = []
erase k ((j, w) ∷ m) = let rest = erase k m in if j == k then rest else (j, w) ∷ rest

abbrev pub holds : List String → String → Bool
holds [] k = false
holds (j ∷ keys) k = j == k || holds keys k

abbrev pub drop_key : String → List String → List String
drop_key k [] = []
drop_key k (j ∷ keys) = let rest = drop_key k keys in if j == k then rest else j ∷ rest

-- `MemoryStorage`
pub record MemoryStorage : Type 0 where
  pub values : List (String × String)
  pub fail_get : List String
  pub fail_set : List String
  pub fail_remove : List String

-- `MemoryStorage::default`
abbrev pub empty_memory : MemoryStorage
empty_memory = record { values = []; fail_get = []; fail_set = []; fail_remove = [] }

-- `raw`
unfoldable pub raw : MemoryStorage → String → Option String
raw memory key = lookup key memory.values

-- `insert_raw`
unfoldable pub insert_raw : String → String → MemoryStorage → MemoryStorage
insert_raw key value memory = record memory { values = insert key value memory.values }

-- `fail_next_get`, `fail_next_set` and `fail_next_remove`
unfoldable pub fail_next_get : String → MemoryStorage → MemoryStorage
fail_next_get key memory = record memory { fail_get = key ∷ memory.fail_get }

unfoldable pub fail_next_set : String → MemoryStorage → MemoryStorage
fail_next_set key memory = record memory { fail_set = key ∷ memory.fail_set }

unfoldable pub fail_next_remove : String → MemoryStorage → MemoryStorage
fail_next_remove key memory = record memory { fail_remove = key ∷ memory.fail_remove }

-- `impl DeviceStorage for MemoryStorage`
abbrev pub memory_storage : DeviceStorage MemoryStorage
memory_storage = record {
  get = λ key m.
      if holds m.fail_get key
      then (err read_failed, record m { fail_get = drop_key key m.fail_get })
      else (ok (lookup key m.values), m);
  set = λ key value m.
      if holds m.fail_set key
      then (err write_failed, record m { fail_set = drop_key key m.fail_set })
      else (ok tt, record m { values = insert key value m.values });
  remove = λ key m.
      if holds m.fail_remove key
      then (err remove_failed, record m { fail_remove = drop_key key m.fail_remove })
      else (ok tt, record m { values = erase key m.values });
}

pub lookup-insert :
    (k j v : String) (m : List (String × String))
    → lookup j (insert k v m) ≡ (if k == j then some v else lookup j m)
lookup-insert k j v [] = refl
lookup-insert k j v ((i, w) ∷ m) =
    ground (arith, lookup-insert k j v m, ==_iff k j, ==_iff i k, ==_iff i j)

pub lookup-erase :
    (k j : String) (m : List (String × String))
    → lookup j (erase k m) ≡ (if k == j then none else lookup j m)
lookup-erase k j [] = ground arith
lookup-erase k j ((i, w) ∷ m) =
    ground (arith, lookup-erase k j m, ==_iff k j, ==_iff i k, ==_iff i j)

-- The in-memory adapter, with any failures injected, keeps the adapter's promises.
unfoldable pub memory_storage_laws : StorageLaws memory_storage
memory_storage_laws = record {
  peek = λ m k. lookup k m.values;
  get_lem = λ k m v h. ground arith;
  get-peek = λ k m j. ground arith;
  set-peek_self = λ k v m h. ground (arith, lookup-insert k k v m.values, ==_iff k k);
  set-peek_failed = λ k v m. elim (Bool-cases (holds m.fail_set k)) [
    | inl fails ↦ inl (ground arith)
    | inr works ↦ inr (ground (arith, lookup-insert k k v m.values, ==_iff k k))
  ];
  set-peek_ne = λ k v m j ne. ground (arith, lookup-insert k j v m.values, ==_iff k j);
  remove-peek_self = λ k m h. ground (arith, lookup-erase k k m.values, ==_iff k k);
  remove-peek_ne = λ k m j ne. ground (arith, lookup-erase k j m.values, ==_iff k j);
}
