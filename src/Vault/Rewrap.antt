-- ===== src/Vault/Rewrap.antt =====
-- crates/vault-core/src/vault.rs: unlocking a vault after its password was changed.
use package.pocket_vault.Base.{
  ℕ, ◌+◌, ◌<◌, ◌≤◌, ◌≡◌, refl, ap, Bytes, [], length, arith, Option-cases, Result-cases, inl, inr,
  Result, ok, err, some, sym, ◌∙◌, guard, ◌>>=◌, ◌>>◌, >>-eq-ok, ◌==◌, ==_iff, nat_eq, list_eq,
  ◌&&◌,
}
use package.pocket_vault.Base as B
use package.pocket_vault.Base.Exec.{>>=-eq-ok, lift}
use package.pocket_vault.Error.{VaultError, invalid_metadata}
use package.pocket_vault.Model.{
  VaultId, vault_id_eq, KdfConfig, from_config, VaultMetaV1, WrappedDekV1, validate_meta,
  EncryptedVaultSlotV1, validate_slot,
}
use package.pocket_vault.Model.Spec.{MetaIsSound}
use package.pocket_vault.Model.Validation.{validate_meta_iff}
use package.pocket_vault.Platform.{Platform, PlatformLaws}
use package.pocket_vault.Crypto.{random_array, derive_kek, unwrap_dek, wrap_dek}
use package.pocket_vault.Crypto.RoundTrip.{wrap-unwrap_dek}
use package.pocket_vault.Vault.Session.{UnlockedVault, decrypt_container}
use package.pocket_vault.Vault.Open.{unlock_vault, authorize_rewrap, fresh_kek}
use package.pocket_vault.Vault.Create.{rewrap_vault_key}
use package.pocket_vault.Vault.Reopen.{fresh_kek-eq-ok, lifted, ok-injective}

-- A password that opens a vault: its metadata is sound and the password leads to the data key.
pub record Opens {R : Type 0} (platform : Platform R) (password : Bytes) (meta : VaultMetaV1)
    (dek : Bytes) : Type 0 where
  pub meta_sound : MetaIsSound meta
  pub kek : Bytes
  pub derived : derive_kek platform password meta.vault_id meta.kdf ≡ ok kek
  pub unwrapped : unwrap_dek platform kek meta.wrapped_dek meta.vault_id ≡ ok dek

module _ {R : Type 0} (platform : Platform R) where
  -- What a slot then unlocks to does not depend on how the key was reached.
  unlock_slot : VaultId → ℕ → Bytes → EncryptedVaultSlotV1 → Result VaultError UnlockedVault
  unlock_slot vault_id created_at dek slot = do
    validate_slot slot vault_id
    container ← decrypt_container platform dek slot
    guard (container.created_at == created_at)
        (invalid_metadata "createdAt does not match encrypted vault")
    ok (record { container = container; dek = dek; persisted_slot = slot.slot })

  Opens-unlock_vault :
      (password : Bytes) (meta : VaultMetaV1) (dek : Bytes) (slot : EncryptedVaultSlotV1)
      → Opens platform password meta dek
      → unlock_vault platform password meta slot
        ≡ unlock_slot meta.vault_id meta.created_at dek slot
  unfolding unlock_vault unlock_slot
  Opens-unlock_vault password meta dek slot o =
      ground (arith, (validate_meta_iff meta).1 o.meta_sound, o.derived, o.unwrapped)

  unwrap_dek-length :
      (kek dek : Bytes) (wrapped : WrappedDekV1) (vault_id : VaultId)
      → unwrap_dek platform kek wrapped vault_id ≡ ok dek
      → length dek ≡ 32
  unfolding unwrap_dek
  unwrap_dek-length kek dek wrapped vault_id h = ground arith

  authorize_rewrap-Opens :
      (current new : Bytes) (meta : VaultMetaV1) (vault : UnlockedVault)
      → authorize_rewrap platform current new meta vault ≡ ok tt
      → Opens platform current meta vault.dek
  unfolding authorize_rewrap
  authorize_rewrap-Opens current new meta vault h =
      let (m, valid, h0) = >>-eq-ok (validate_meta meta) _ h in
      let (n, owned, h1) =
        >>-eq-ok
          (guard
            (meta.vault_id == vault.container.vault_id
              && meta.created_at == vault.container.created_at)
            (invalid_metadata "metadata does not match the unlocked vault"))
          _ h0 in
      let (kek, derived, h2) =
        B.>>=-eq-ok (derive_kek platform current meta.vault_id meta.kdf) _ h1 in
      let (dek, unwrapped, h3) =
        B.>>=-eq-ok (unwrap_dek platform kek meta.wrapped_dek meta.vault_id) _ h2 in
      let same : dek ≡ vault.dek = ground (arith, ==_iff dek vault.dek) in
      record {
        meta_sound = (validate_meta_iff meta).0 valid;
        kek = kek;
        derived = derived;
        unwrapped = rw (← same) unwrapped;
      }

module _ {R : Type 0} (platform : Platform R) (laws : PlatformLaws platform) where
  -- The old password opens the old metadata, and the new one the new metadata, with the session's
  -- key; both are of one vault.
  pub rewrap_vault_key-Opens :
      (current new : Bytes) (meta meta' : VaultMetaV1) (vault : UnlockedVault) (config : KdfConfig)
      (rng rng' : R)
      → rewrap_vault_key platform current new meta vault config rng ≡ (ok meta', rng')
      → Opens platform current meta vault.dek
        × Opens platform new meta' vault.dek
        × (meta'.vault_id ≡ meta.vault_id)
        × (meta'.created_at ≡ meta.created_at)
  unfolding rewrap_vault_key
  rewrap_vault_key-Opens current new meta meta' vault config rng rng' h =
      let (_, t0, allowed, h0) =
        >>=-eq-ok (lift (authorize_rewrap platform current new meta vault)) _ rng h in
      let (salt, t1, drawn_salt, h1) = >>=-eq-ok (random_array platform 16) _ t0 h0 in
      let kdf = from_config salt config in
      let (kek, t2, derived, h2) =
        >>=-eq-ok (lift (fresh_kek platform new meta.vault_id kdf)) _ t1 h1 in
      let (wrapped, t3, wrap, h3) =
        >>=-eq-ok (wrap_dek platform kek vault.dek meta.vault_id) _ t2 h2 in
      let old = authorize_rewrap-Opens platform current new meta vault (lifted allowed) in
      let (limits, key) = fresh_kek-eq-ok platform new meta.vault_id kdf kek (lifted derived) in
      let size =
        unwrap_dek-length platform old.kek vault.dek meta.wrapped_dek meta.vault_id old.unwrapped in
      let fresh =
        wrap-unwrap_dek platform laws kek vault.dek meta.vault_id t2 t3 wrapped size wrap in
      let sound = old.meta_sound in
      let opens : Opens platform new (record meta { kdf = kdf; wrapped_dek = wrapped }) vault.dek =
        record {
          meta_sound = record {
            format = sound.format;
            version = sound.version;
            kdf = limits;
            nonce = fresh.1;
            ciphertext = fresh.2;
          };
          kek = kek;
          derived = key;
          unwrapped = fresh.0;
        } in
      rw (← ok-injective h3) (old, opens, refl, refl)

  -- After a password change every slot, sound or not, unlocks with the new password and metadata to
  -- just what it unlocked to with the old ones.
  pub rewrap_vault_key-unlock_vault :
      (current new : Bytes) (meta meta' : VaultMetaV1) (vault : UnlockedVault) (config : KdfConfig)
      (rng rng' : R) (slot : EncryptedVaultSlotV1)
      → rewrap_vault_key platform current new meta vault config rng ≡ (ok meta', rng')
      → unlock_vault platform new meta' slot ≡ unlock_vault platform current meta slot
  rewrap_vault_key-unlock_vault current new meta meta' vault config rng rng' slot h =
      let (old, fresh, owner, born) =
        rewrap_vault_key-Opens current new meta meta' vault config rng rng' h in
      ground (
        arith,
        owner,
        born,
        Opens-unlock_vault platform new meta' vault.dek slot fresh,
        Opens-unlock_vault platform current meta vault.dek slot old,
      )
