-- ===== src/Vault/Reopen.antt =====
-- crates/vault-core/src/vault.rs: creating a vault, and unlocking it.
use package.pocket_vault.Base.{
  ℕ, ◌≡◌, refl, ap, Bytes, length, arith, Result-cases, inl, inr, Result, ok, nat_eq, list_eq,
}
use package.pocket_vault.Base.Exec.{>>=-eq-ok, lift}
use package.pocket_vault.Error.{VaultError}
use package.pocket_vault.Model.{
  VaultId, vault_id_eq, KdfConfig, KdfParams, from_config, validate_kdf, VaultContainerV1, slot_a,
}
use package.pocket_vault.Model.Spec.{KdfWithinLimits, MetaIsSound, SlotIsSound, ContainerIsSound}
use package.pocket_vault.Model.Validation.{validate_kdf_iff, validate_meta_iff, validate_slot_iff}
use package.pocket_vault.Platform.{Platform, PlatformLaws}
use package.pocket_vault.Crypto.{
  random_array, derive_kek, unwrap_dek, wrap_dek, encrypt_slot_payload,
}
use package.pocket_vault.Crypto.RoundTrip.{wrap-unwrap_dek}
use package.pocket_vault.Vault.Session.{
  CreatedVault, validate_new_master_password, serialize_container, decrypt_container,
}
use package.pocket_vault.Vault.Open.{empty_container, unlock_vault, fresh_kek}
use package.pocket_vault.Vault.Create.{create_vault}
use package.pocket_vault.Vault.Commits.{seal-decrypt_container}

pub empty_container-IsSound :
    (vault_id : VaultId) (now : ℕ) → ContainerIsSound (empty_container vault_id now)
empty_container-IsSound vault_id now = ground arith

-- What a finished `create_vault` has done, step by step.
pub record CreationOf {R : Type 0} (platform : Platform R) (password : Bytes)
    (created : CreatedVault) : Type 0 where
  pub meta_sound : MetaIsSound created.metadata
  pub kek : Bytes
  pub derived : derive_kek platform password created.metadata.vault_id created.metadata.kdf ≡ ok kek
  pub unwrapped :
      unwrap_dek platform kek created.metadata.wrapped_dek created.metadata.vault_id
      ≡ ok created.unlocked.dek
  pub container_lem :
      created.unlocked.container
      ≡ empty_container created.metadata.vault_id created.metadata.created_at
  pub decrypted :
      decrypt_container platform created.unlocked.dek created.initial_slot
      ≡ ok created.unlocked.container
  pub slot_sound : SlotIsSound created.initial_slot created.metadata.vault_id
  pub place : created.initial_slot.slot ≡ created.unlocked.persisted_slot
  pub first_place : created.unlocked.persisted_slot ≡ slot_a
  pub generation_lem : created.initial_slot.generation ≡ created.unlocked.container.generation
  pub pointer_lem : created.active_slot ≡ record {
    version = 1;
    slot = created.initial_slot.slot;
    generation = created.initial_slot.generation;
  }

pub random_array-length :
    {R : Type 0} (platform : Platform R) (laws : PlatformLaws platform) (n : ℕ) (rng rng' : R)
    (bytes : Bytes)
    → random_array platform n rng ≡ (ok bytes, rng')
    → length bytes ≡ n
unfolding random_array
random_array-length platform laws n rng rng' bytes h = laws.length-fill n rng bytes (ground arith)

pub fresh_kek-eq-ok :
    {R : Type 0} (platform : Platform R) (password : Bytes) (vault_id : VaultId) (kdf : KdfParams)
    (kek : Bytes)
    → fresh_kek platform password vault_id kdf ≡ ok kek
    → KdfWithinLimits kdf × (derive_kek platform password vault_id kdf ≡ ok kek)
unfolding fresh_kek
fresh_kek-eq-ok platform password vault_id kdf kek h =
    let limits = validate_kdf_iff kdf in
    elim (Result-cases (validate_kdf kdf)) [
      | inl (done, valid) ↦ (limits.0 valid, ground arith)
      | inr (e, invalid) ↦ absurd (ground arith)
    ]

-- The result part of a call that `lift` made.
pub lifted :
    {R A : Type 0} {r : Result VaultError A} {a : A} {s t : R} → lift r s ≡ (ok a, t) → r ≡ ok a
lifted h = ap (λ p. p.0) h

pub ok-injective :
    {R A : Type 0} {a b : A} {s t : R}
    → ◌≡◌ {A = Result VaultError A × R} (ok a, s) (ok b, t)
    → a ≡ b
ok-injective h = ground arith

module _ {R : Type 0} (platform : Platform R) (laws : PlatformLaws platform) where
  pub create_vault-CreationOf :
      (password : Bytes) (config : KdfConfig) (now : ℕ) (rng rng' : R) (created : CreatedVault)
      → create_vault platform password config now rng ≡ (ok created, rng')
      → CreationOf platform password created
  unfolding create_vault
  create_vault-CreationOf password config now rng rng' created h =
      let (_, t0, valid, h0) = >>=-eq-ok (lift (validate_new_master_password password)) _ rng h in
      let (id, t1, drawn_id, h1) = >>=-eq-ok (random_array platform 16) _ t0 h0 in
      let vault_id : VaultId = record { bytes = id } in
      let (salt, t2, drawn_salt, h2) = >>=-eq-ok (random_array platform 16) _ t1 h1 in
      let kdf = from_config salt config in
      let (kek, t3, derived, h3) =
        >>=-eq-ok (lift (fresh_kek platform password vault_id kdf)) _ t2 h2 in
      let (dek, t4, drawn_dek, h4) = >>=-eq-ok (random_array platform 32) _ t3 h3 in
      let (wrapped, t5, wrap, h5) = >>=-eq-ok (wrap_dek platform kek dek vault_id) _ t4 h4 in
      let c = empty_container vault_id now in
      let (plaintext, t6, serialized, h6) =
        >>=-eq-ok (lift (serialize_container platform c)) _ t5 h5 in
      let (slot, t7, sealed, h7) =
        >>=-eq-ok (encrypt_slot_payload platform dek vault_id slot_a 0 plaintext) _ t6 h6 in
      let (limits, key) = fresh_kek-eq-ok platform password vault_id kdf kek (lifted derived) in
      let unwrapped =
        wrap-unwrap_dek platform laws kek dek vault_id t4 t5 wrapped
          (random_array-length platform laws 32 t3 t4 dek drawn_dek) wrap in
      let opened =
        seal-decrypt_container platform laws c dek plaintext slot_a t6 t7 slot
          (empty_container-IsSound vault_id now) (lifted serialized) sealed in
      rw (← ok-injective h7) (record {
        meta_sound = record {
          format = refl;
          version = refl;
          kdf = limits;
          nonce = unwrapped.1;
          ciphertext = unwrapped.2;
        };
        kek = kek;
        derived = key;
        unwrapped = unwrapped.0;
        container_lem = refl;
        decrypted = opened.0;
        slot_sound = opened.1;
        place = opened.2;
        first_place = refl;
        generation_lem = opened.3;
        pointer_lem = rw (opened.2, opened.3);
      })

  -- A vault that was created with a password unlocks with it, from the metadata and the slot that
  -- creation returned, to the session that creation returned.
  pub create_vault-unlock_vault :
      (password : Bytes) (config : KdfConfig) (now : ℕ) (rng rng' : R) (created : CreatedVault)
      → create_vault platform password config now rng ≡ (ok created, rng')
      → unlock_vault platform password created.metadata created.initial_slot ≡ ok created.unlocked
  unfolding unlock_vault
  create_vault-unlock_vault password config now rng rng' created h =
      let made = create_vault-CreationOf password config now rng rng' created h in
      let meta_valid = (validate_meta_iff created.metadata).1 made.meta_sound in
      let slot_valid =
        (validate_slot_iff created.initial_slot created.metadata.vault_id).1 made.slot_sound in
      let born : created.unlocked.container.created_at ≡ created.metadata.created_at =
        ap (λ (c : VaultContainerV1). c.created_at) made.container_lem in
      ground (
        arith, meta_valid, slot_valid, made.derived, made.unwrapped, made.decrypted, born,
        made.place,
      )
