-- ===== src/Vault/Commits.antt =====
-- crates/vault-core/src/vault.rs: encrypting a container for a slot, and the checks before its
-- commit.
use package.pocket_vault.Base.{
  ℕ, ◌+◌, ◌<◌, ◌≤◌, ◌≡◌, ◌↔◌, ◌⊎◌, refl, ap, Bytes, Result, length, arith, Result-cases, inl, inr,
  ok, err, some, ==_iff,
}
use package.pocket_vault.Base.Exec.{>>=-eq-ok, lift}
use package.pocket_vault.Error.{VaultError}
use package.pocket_vault.Model.{
  SlotId, other, EncryptedVaultSlotV1, VaultContainerV1, vault_container_eq, slot_id_eq,
}
use package.pocket_vault.Model.Spec.{SlotIsSound, ContainerIsSound}
use package.pocket_vault.Model.Validation.{validate_slot_iff, validate_container_iff}
use package.pocket_vault.Platform.{Platform, PlatformLaws}
use package.pocket_vault.Crypto.{encrypt_slot_payload}
use package.pocket_vault.Crypto.RoundTrip.{encrypt-decrypt_slot_payload}
use package.pocket_vault.Vault.Session.{UnlockedVault, serialize_container, decrypt_container}
use package.pocket_vault.Vault.Members.{All-mono}
use package.pocket_vault.Vault.Commit.{
  at_generation, next_generation, encrypt_for_slot_at_generation, encrypt_for_slot,
  decrypt_candidate, verify_next_slot, commit_verified_slot,
}

-- The session after its inactive slot was committed.
abbrev pub advanced : UnlockedVault → UnlockedVault
advanced vault = record vault {
  container = at_generation vault.container (vault.container.generation + 1);
  persisted_slot = other vault.persisted_slot;
}

pub at_generation-IsSound :
    (c : VaultContainerV1) (g : ℕ) → ContainerIsSound c → ContainerIsSound (at_generation c g)
at_generation-IsSound c g h = record {
  format = h.format;
  version = h.version;
  ordered = h.ordered;
  room = h.room;
  members = All-mono c (at_generation c g) c.entries refl (omega arith) h.members;
  distinct = h.distinct;
}

module _ {R : Type 0} (platform : Platform R) (laws : PlatformLaws platform) where
  serialize_container-eq-ok :
      (c : VaultContainerV1) (plaintext : Bytes)
      → serialize_container platform c ≡ ok plaintext
      → (platform.container_json.encode c ≡ some plaintext) × (length plaintext + 16 ≤ 5242880)
  unfolding serialize_container
  serialize_container-eq-ok c plaintext h = ground arith

  -- A sound container, serialized and encrypted for its vault and generation, decrypts to itself,
  -- and the slot passes validation.
  pub seal-decrypt_container :
      (c : VaultContainerV1) (dek plaintext : Bytes) (place : SlotId) (rng rng' : R)
      (slot : EncryptedVaultSlotV1)
      → ContainerIsSound c
      → serialize_container platform c ≡ ok plaintext
      → encrypt_slot_payload platform dek c.vault_id place c.generation plaintext rng
        ≡ (ok slot, rng')
      → (decrypt_container platform dek slot ≡ ok c)
        × SlotIsSound slot c.vault_id
        × (slot.slot ≡ place)
        × (slot.generation ≡ c.generation)
  unfolding decrypt_container
  seal-decrypt_container c dek plaintext place rng rng' slot sound serialized sealed =
      let (text, fits) = serialize_container-eq-ok c plaintext serialized in
      let (opened, env) =
        encrypt-decrypt_slot_payload platform laws dek c.vault_id place c.generation plaintext rng
          rng' slot sealed in
      let valid =
        (validate_container_iff c slot.vault_id slot.generation).1
          (sound, ground (arith, env), ground (arith, env)) in
      (
        ground (arith, opened, laws.container_laws.decode-encode c plaintext text, valid),
        ground (arith, env),
        env.slot_lem,
        env.generation_lem,
      )

  pub encrypt_at_generation_lem :
      (vault : UnlockedVault) (place : SlotId) (g : ℕ) (rng rng' : R) (slot : EncryptedVaultSlotV1)
      → ContainerIsSound vault.container
      → encrypt_for_slot_at_generation platform vault place g rng ≡ (ok slot, rng')
      → (decrypt_container platform vault.dek slot ≡ ok (at_generation vault.container g))
        × SlotIsSound slot vault.container.vault_id
        × (slot.slot ≡ place)
        × (slot.generation ≡ g)
  unfolding encrypt_for_slot_at_generation
  encrypt_at_generation_lem vault place g rng rng' slot sound h =
      let c = at_generation vault.container g in
      let (plaintext, t, serialized, sealed) =
        >>=-eq-ok (lift (serialize_container platform c)) _ rng h in
      seal-decrypt_container c vault.dek plaintext place t rng' slot
        (at_generation-IsSound vault.container g sound)
        (ap (λ (x : Result VaultError Bytes × R). x.0) serialized) sealed

module _ {R : Type 0} (platform : Platform R) where
  -- A slot is verified exactly when the generation can still grow, the slot is the inactive one, of
  -- the next generation, sound, and decrypts to the session's container at that generation.
  pub verify_next_slot_iff :
      (vault : UnlockedVault) (slot : EncryptedVaultSlotV1)
      → (verify_next_slot platform vault slot ≡ ok tt) ↔ (
          (vault.container.generation + 1 < 18446744073709551616)
          × (slot.slot ≡ other vault.persisted_slot)
          × (slot.generation ≡ vault.container.generation + 1)
          × SlotIsSound slot vault.container.vault_id
          × (decrypt_container platform vault.dek slot
              ≡ ok (at_generation vault.container (vault.container.generation + 1))))
  unfolding verify_next_slot decrypt_candidate
  verify_next_slot_iff vault slot =
      let g = vault.container.generation + 1 in
      let sound = validate_slot_iff slot vault.container.vault_id in
      elim (Result-cases (decrypt_container platform vault.dek slot)) [
        | inr (e, failed) ↦ (
          λ h. ground (arith, sound, ==_iff slot.slot (other vault.persisted_slot)),
          λ h. ground (arith, sound),
        )
        | inl (c, opened) ↦
            let place = ==_iff slot.slot (other vault.persisted_slot) in
            let same = ==_iff c (at_generation vault.container g) in
            (λ h. ground (arith, sound, place, same), λ h. ground (arith, sound, place, same))
      ]

  -- A commit moves the session to the slot and its generation, one past the last, and changes
  -- nothing else; a refused commit changes nothing at all.
  pub commit_verified_slot_lem :
      (vault : UnlockedVault) (slot : EncryptedVaultSlotV1)
      → ((verify_next_slot platform vault slot ≡ ok tt)
          × (commit_verified_slot platform slot vault ≡ (ok tt, advanced vault)))
        ⊎ ((e : VaultError) × (verify_next_slot platform vault slot ≡ err e)
            × (commit_verified_slot platform slot vault ≡ (err e, vault)))
  unfolding commit_verified_slot
  commit_verified_slot_lem vault slot = elim (Result-cases (verify_next_slot platform vault slot)) [
    | inr (e, refused) ↦ inr (e, refused, ground arith)
    | inl (done, verified) ↦
        let (_, place, at, _, _) = (verify_next_slot_iff vault slot).0 verified in
        inl (verified, ground arith)
  ]

pub encrypt_for_slot_lem :
    {R : Type 0} (platform : Platform R) (laws : PlatformLaws platform) (vault : UnlockedVault)
    (place : SlotId) (rng rng' : R) (slot : EncryptedVaultSlotV1)
    → ContainerIsSound vault.container
    → encrypt_for_slot platform vault place rng ≡ (ok slot, rng')
    → (decrypt_container platform vault.dek slot
        ≡ ok (at_generation vault.container (vault.container.generation + 1)))
      × SlotIsSound slot vault.container.vault_id
      × (slot.slot ≡ place)
      × (slot.generation ≡ vault.container.generation + 1)
      × (vault.container.generation + 1 < 18446744073709551616)
unfolding encrypt_for_slot
encrypt_for_slot_lem platform laws vault place rng rng' slot sound h =
    let (g, t, next, sealed) = >>=-eq-ok (lift (next_generation vault)) _ rng h in
    let facts : (g ≡ vault.container.generation + 1) × (g < 18446744073709551616) = ground arith in
    let opened = encrypt_at_generation_lem platform laws vault place g t rng' slot sound sealed in
    (
      rw (← facts.0) opened.0,
      opened.1,
      opened.2,
      omega (arith, opened.3, facts),
      omega (arith, facts),
    )

-- The slot that a session with a sound container encrypts for its inactive slot passes its own
-- verification, so the commit of an undamaged slot goes through.
pub encrypt_for_slot-verify_next_slot :
    {R : Type 0} (platform : Platform R) (laws : PlatformLaws platform) (vault : UnlockedVault)
    (rng rng' : R) (slot : EncryptedVaultSlotV1)
    → ContainerIsSound vault.container
    → encrypt_for_slot platform vault (other vault.persisted_slot) rng ≡ (ok slot, rng')
    → verify_next_slot platform vault slot ≡ ok tt
encrypt_for_slot-verify_next_slot platform laws vault rng rng' slot sound h =
    let (opens, envelope, place, at, fits) =
      encrypt_for_slot_lem platform laws vault (other vault.persisted_slot) rng rng' slot sound h in
    (verify_next_slot_iff platform vault slot).1 (fits, place, at, envelope, opens)
