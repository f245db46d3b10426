-- ===== src/Storage/SaveSlot.antt =====
-- crates/vault-core/src/storage.rs: what `save` may have written under the key of its target slot.
use package.pocket_vault.Base.{
  ℕ, ◌≡◌, ◌⊎◌, inl, inr, ◌∙◌, sym, String, some, ok, Result-cases, arith,
}
use package.pocket_vault.Model.{SlotId, other, EncryptedVaultSlotV1}
use package.pocket_vault.Platform.{Platform}
use package.pocket_vault.Vault.{UnlockedVault, next_generation, encrypt_for_slot_at_generation}
use package.pocket_vault.Storage.Adapter.{DeviceStorage, StorageLaws, slot_key, active_slot_key}
use package.pocket_vault.Storage.Json.{write_json_verified, read_required_json}
use package.pocket_vault.Storage.Effects.{
  TextOf, read_required_json-peek, write_json_verified-peek_ne, write_json_verified-peek_self,
}
use package.pocket_vault.Storage.Repository.{persist, save}
use package.pocket_vault.Storage.SaveSafety.{next_pointer, active_slot_key-ne-slot_key}
use package.pocket_vault.Storage.Save.{save-persist}

module _ {R S : Type 0} (platform : Platform R) {store : DeviceStorage S}
    (laws : StorageLaws store) where
  open laws use {peek}
  open platform use {slot_json, pointer_json}

  persist-peek_target :
      (vault : UnlockedVault) (target : SlotId) (next : ℕ) (slot : EncryptedVaultSlotV1) (s : S)
      → peek (persist platform store vault target next slot s).1 (slot_key target)
        ≡ peek
            (write_json_verified store slot_json (slot_key target) slot 5242880 s).1
            (slot_key target)
  unfolding persist
  persist-peek_target vault target next slot s =
      let key = slot_key target in
      let s1 = (write_json_verified store slot_json key slot 5242880 s).1 in
      let s2 = (read_required_json store slot_json key 5242880 s1).1 in
      ground (
        arith,
        read_required_json-peek laws slot_json key 5242880 s1 key,
        write_json_verified-peek_ne laws pointer_json active_slot_key (next_pointer target next)
            1024 s2 key (λ e. active_slot_key-ne-slot_key target (sym e)),
      )

  -- The slot that a save sealed for its target, and its text.
  pub record Sealed (vault : UnlockedVault) (rng : R) (text : String) : Type 0 where
    pub next : ℕ
    pub slot : EncryptedVaultSlotV1
    pub grown : next_generation vault ≡ ok next
    pub sealed :
        (encrypt_for_slot_at_generation platform vault (other vault.persisted_slot) next rng).0
        ≡ ok slot
    pub is_text : TextOf slot_json slot 5242880 text

  -- The target's key keeps its text, or has the text of the slot that was sealed.
  pub save-peek_target :
      (vault : UnlockedVault) (rng : R) (s : S)
      → (peek (save platform store vault rng s).3 (slot_key (other vault.persisted_slot))
          ≡ peek s (slot_key (other vault.persisted_slot)))
        ⊎ ((text : String) × Sealed vault rng text
            × (peek (save platform store vault rng s).3 (slot_key (other vault.persisted_slot))
                ≡ some text))
  unfolding save
  save-peek_target vault rng s =
      let target = other vault.persisted_slot in
      elim (Result-cases (next_generation vault)) [
        | inr (e, failed) ↦ inl (ground (arith, failed))
        | inl (next, grown) ↦
            elim (Result-cases (encrypt_for_slot_at_generation platform vault target next rng).0) [
              | inr (e, failed) ↦ inl (ground (arith, grown, failed))
              | inl (slot, sealed) ↦
                  let after = (save-persist platform laws vault rng s next slot grown sealed).0 in
                  let written = persist-peek_target vault target next slot s in
                  elim (write_json_verified-peek_self laws slot_json (slot_key target) slot 5242880
                    s) [
                      | inl kept ↦ inl (rw after (written ∙ kept))
                      | inr (text, is_text, stored) ↦ inr (
                        text,
                        record {
                          next = next;
                          slot = slot;
                          grown = grown;
                          sealed = sealed;
                          is_text = is_text;
                        },
                        rw after (written ∙ stored),
                      )
                    ]
            ]
      ]
