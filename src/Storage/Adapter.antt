-- ===== src/Storage/Adapter.antt =====
-- crates/vault-core/src/storage.rs: the keys and the trait `DeviceStorage`.
use package.pocket_vault.Base.{ℕ, ◌≡◌, ◌≢◌, ◌⊎◌, String, Option, none, some, ok}
use package.pocket_vault.Base.Exec.{Exec}
use package.pocket_vault.Error.{StorageError}
use package.pocket_vault.Model.{SlotId, slot_a, slot_b}

abbrev pub meta_key : String
meta_key = "vault_meta_v1"

abbrev pub slot_a_key : String
slot_a_key = "vault_slot_a_v1"

abbrev pub slot_b_key : String
slot_b_key = "vault_slot_b_v1"

abbrev pub active_slot_key : String
active_slot_key = "active_slot_v1"

abbrev pub max_active_pointer_bytes : ℕ
max_active_pointer_bytes = 1024

-- `slot_key`
abbrev pub slot_key : SlotId → String
slot_key slot_a = slot_a_key
slot_key slot_b = slot_b_key

-- `trait DeviceStorage`, for an adapter with the state S.
pub record DeviceStorage (S : Type 0) : Type 0 where
  pub get : String → Exec S StorageError (Option String)
  pub set : String → String → Exec S StorageError (Unit {0})
  pub remove : String → Exec S StorageError (Unit {0})

-- What the trait's documentation asks of an adapter, in terms of the value that stands under a key:
-- a read returns it and changes none, a write or a removal reaches its own key only and, where it
-- fails, has happened or not.
pub record StorageLaws {S : Type 0} (store : DeviceStorage S) : Type 0 where
  pub peek : S → String → Option String
  pub get_lem : (k : String) (s : S) (v : Option String) → (store.get k s).0 ≡ ok v → v ≡ peek s k
  pub get-peek : (k : String) (s : S) (j : String) → peek (store.get k s).1 j ≡ peek s j
  pub set-peek_self :
      (k v : String) (s : S) → (store.set k v s).0 ≡ ok tt → peek (store.set k v s).1 k ≡ some v
  pub set-peek_failed :
      (k v : String) (s : S)
      → (peek (store.set k v s).1 k ≡ peek s k) ⊎ (peek (store.set k v s).1 k ≡ some v)
  pub set-peek_ne :
      (k v : String) (s : S) (j : String) → j ≢ k → peek (store.set k v s).1 j ≡ peek s j
  pub remove-peek_self :
      (k : String) (s : S) → (store.remove k s).0 ≡ ok tt → peek (store.remove k s).1 k ≡ none
  pub remove-peek_ne :
      (k : String) (s : S) (j : String) → j ≢ k → peek (store.remove k s).1 j ≡ peek s j
