-- ===== src/Storage/Progress.antt =====
-- crates/vault-core/src/storage.rs: `save` on a storage whose calls succeed.
use package.pocket_vault.Base.{
  ℕ, ◌+◌, ◌≡◌, inl, inr, String, Option, some, ok, arith, ==_iff, string_eq, ap, Result,
}
use package.pocket_vault.Base.Exec.{lift, >>=-eq-ok}
use package.pocket_vault.Error.{VaultError}
use package.pocket_vault.Model.{other, EncryptedVaultSlotV1, validate_slot}
use package.pocket_vault.Model.Spec.{ContainerIsSound}
use package.pocket_vault.Model.Validation.{validate_slot_iff}
use package.pocket_vault.Platform.{Platform, PlatformLaws, Codec, CodecLaws}
use package.pocket_vault.Vault.{
  UnlockedVault, next_generation, encrypt_for_slot, encrypt_for_slot_at_generation,
  verify_next_slot,
}
use package.pocket_vault.Vault.Commits.{
  commit_verified_slot_lem, encrypt_at_generation_lem, encrypt_for_slot-verify_next_slot,
}
use package.pocket_vault.Storage.Adapter.{DeviceStorage, StorageLaws, slot_key, active_slot_key}
use package.pocket_vault.Storage.Json.{write_json_verified, read_optional_json, read_required_json}
use package.pocket_vault.Storage.Effects.{TextOf}
use package.pocket_vault.Storage.Repository.{persist, save}
use package.pocket_vault.Storage.SaveSafety.{next_pointer}
use package.pocket_vault.Storage.Save.{save-persist, next_generation-eq-ok}
use package.pocket_vault.Storage.Holding.{decode_stored-TextOf}

-- No call of the adapter fails.
pub record Works {S : Type 0} (store : DeviceStorage S) : Type 0 where
  pub gets : (k : String) (s : S) → (v : Option String) × ((store.get k s).0 ≡ ok v)
  pub sets : (k v : String) (s : S) → (store.set k v s).0 ≡ ok tt

module _ {S : Type 0} {store : DeviceStorage S} (laws : StorageLaws store) (works : Works store)
    {T : Type 0} (codec : Codec T String) where
  open laws use {peek}

  write_json_verified-TextOf :
      (key : String) (value : T) (limit : ℕ) (text : String) (s : S)
      → TextOf codec value limit text
      → ((write_json_verified store codec key value limit s).0 ≡ ok tt)
        × (peek (write_json_verified store codec key value limit s).1 key ≡ some text)
  unfolding write_json_verified
  write_json_verified-TextOf key value limit text s t =
      let s' = (store.set key text s).1 in
      let (v, got) = works.gets key s' in
      let stored = laws.set-peek_self key text s (works.sets key text s) in
      let same : v ≡ some text = ground (arith, laws.get_lem key s' v got, stored) in
      (
        ground (arith, t.encoded, t.bounded, works.sets key text s, got, same, ==_iff text text),
        ground
            (arith, t.encoded, t.bounded, works.sets key text s, laws.get-peek key s' key, stored),
      )

  read_required_json-TextOf :
      (key : String) (value : T) (limit : ℕ) (text : String) (s : S)
      → CodecLaws codec
      → TextOf codec value limit text
      → peek s key ≡ some text
      → (read_required_json store codec key limit s).0 ≡ ok value
  unfolding read_required_json read_optional_json
  read_required_json-TextOf key value limit text s promises t stored =
      let (v, got) = works.gets key s in
      let same : v ≡ some text = ground (arith, laws.get_lem key s v got, stored) in
      let decoded = decode_stored-TextOf codec promises value limit text t in
      ground (arith, got, same, decoded)

module _ {R S : Type 0} (platform : Platform R) (promises : PlatformLaws platform)
    {store : DeviceStorage S} (laws : StorageLaws store) (works : Works store) where
  open platform use {slot_json, pointer_json}

  persist_succeeds :
      (vault : UnlockedVault) (slot : EncryptedVaultSlotV1) (next : ℕ) (s : S)
      (slot_text pointer_text : String)
      → validate_slot slot vault.container.vault_id ≡ ok tt
      → verify_next_slot platform vault slot ≡ ok tt
      → TextOf slot_json slot 5242880 slot_text
      → TextOf pointer_json (next_pointer (other vault.persisted_slot) next) 1024 pointer_text
      → (persist platform store vault (other vault.persisted_slot) next slot s).0 ≡ ok slot
  unfolding persist
  persist_succeeds vault slot next s slot_text pointer_text valid verified is_slot is_pointer =
      let target = other vault.persisted_slot in
      let key = slot_key target in
      let s1 = (write_json_verified store slot_json key slot 5242880 s).1 in
      let s2 = (read_required_json store slot_json key 5242880 s1).1 in
      let wrote =
        write_json_verified-TextOf laws works slot_json key slot 5242880 slot_text s is_slot in
      ground (
        arith,
        wrote,
        read_required_json-TextOf laws works slot_json key slot 5242880 slot_text s1
            promises.slot_laws is_slot wrote.1,
        valid,
        verified,
        write_json_verified-TextOf laws works pointer_json active_slot_key
            (next_pointer target next) 1024 pointer_text s2 is_pointer,
      )

  -- On a storage whose calls succeed, a session with a sound container is saved, if its encryption
  -- for the inactive slot succeeds and the texts of that slot and of the pointer fit their limits.
  pub save_succeeds :
      (vault : UnlockedVault) (slot : EncryptedVaultSlotV1) (rng rng' : R) (s : S)
      (slot_text pointer_text : String)
      → ContainerIsSound vault.container
      → encrypt_for_slot platform vault (other vault.persisted_slot) rng ≡ (ok slot, rng')
      → TextOf slot_json slot 5242880 slot_text
      → TextOf pointer_json
          (next_pointer (other vault.persisted_slot) (vault.container.generation + 1))
          1024
          pointer_text
      → (save platform store vault rng s).0 ≡ ok tt
  unfolding encrypt_for_slot
  save_succeeds vault slot rng rng' s slot_text pointer_text sound h is_slot is_pointer =
      let (g, t, next, sealed) = >>=-eq-ok (lift (next_generation vault)) _ rng h in
      let grown : next_generation vault ≡ ok g = ap (λ (x : Result VaultError ℕ × R). x.0) next in
      let encrypted : encrypt_for_slot_at_generation platform vault (other vault.persisted_slot) g
            rng
          ≡ (ok slot, rng') =
        ground (arith, sealed, next) in
      let at = next_generation-eq-ok vault g grown in
      let (_, envelope, _, _) =
        encrypt_at_generation_lem platform promises vault _ g rng rng' slot sound encrypted in
      let verified =
        encrypt_for_slot-verify_next_slot platform promises vault rng rng' slot sound h in
      let stored =
        persist_succeeds vault slot g s slot_text pointer_text
          ((validate_slot_iff slot vault.container.vault_id).1 envelope) verified is_slot
          (rw at is_pointer) in
      let step = save-persist platform laws vault rng s g slot grown (ground (arith, encrypted)) in
      elim (commit_verified_slot_lem platform vault slot) [
        | inl (_, committed) ↦ ground (arith, (step.2 slot stored).0, committed)
        | inr (e, refused, _) ↦ absurd (ground (arith, refused, verified))
      ]
