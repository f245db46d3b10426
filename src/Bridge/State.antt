-- ===== src/Bridge/State.antt =====
-- crates/vault-wasm/src/bridge.rs: the session that the browser holds, and the calls on it that need
-- neither the platform nor an identifier.
use package.pocket_vault.Base.{ℕ, Bool, true, false, String, Option, none, some, Result, ok, err}
use mathlib.Core.Option
use package.pocket_vault.Error.{VaultError}
use package.pocket_vault.Model.{SlotId, EncryptedVaultSlotV1, ActiveSlotV1, VaultMetaV1}
use package.pocket_vault.Vault.{UnlockedVault}

-- `BridgeError`
pub data BridgeError : Type 0 where
  in_vault : VaultError → BridgeError
  locked save_pending no_save_pending pending_slot_not_verified readback_mismatch serialization
        missing_metadata no_password_change_pending :
      BridgeError

-- `SaveBundle`
pub record SaveBundle : Type 0 where
  pub slot_name : String
  pub slot_json : String
  pub active_pointer_json : String

-- `PendingSave`
pub record PendingSave : Type 0 where
  pub slot : EncryptedVaultSlotV1
  pub slot_json : String
  pub active_pointer : ActiveSlotV1
  pub active_pointer_json : String
  pub slot_verified : Bool

-- `PendingPasswordChange`
pub record PendingPasswordChange : Type 0 where
  pub metadata : VaultMetaV1
  pub metadata_json : String

-- `VaultBridge`
pub record VaultBridge : Type 0 where
  pub vault : Option UnlockedVault
  pub metadata : Option VaultMetaV1
  pub pending : Option PendingSave
  pub pending_password_change : Option PendingPasswordChange

-- `ensure_mutable`
unfoldable pub ensure_mutable : VaultBridge → Result BridgeError UnlockedVault
ensure_mutable bridge = elim bridge.pending [
  | some _ ↦ err save_pending
  | none ↦ elim bridge.pending_password_change [
    | some _ ↦ err save_pending
    | none ↦ elim bridge.vault [ none ↦ err locked | some vault ↦ ok vault ]
  ]
]

-- `cancel_pending_save`
unfoldable pub cancel_pending_save : VaultBridge → VaultBridge
cancel_pending_save bridge = record bridge { pending = none }

-- `cancel_password_change`
unfoldable pub cancel_password_change : VaultBridge → VaultBridge
cancel_password_change bridge = record bridge { pending_password_change = none }

-- `lock`
unfoldable pub lock : VaultBridge → VaultBridge
lock bridge = record {
  vault = none;
  metadata = none;
  pending = none;
  pending_password_change = none;
}

-- `is_locked`
unfoldable pub is_locked : VaultBridge → Bool
is_locked bridge = elim bridge.vault [ none ↦ true | some _ ↦ false ]

-- `generation`
unfoldable pub generation : VaultBridge → Option ℕ
generation bridge = Option.map (λ (vault : UnlockedVault). vault.container.generation) bridge.vault

-- `persisted_slot`
unfoldable pub persisted_slot : VaultBridge → Option SlotId
persisted_slot bridge = Option.map (λ (vault : UnlockedVault). vault.persisted_slot) bridge.vault
