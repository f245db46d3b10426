-- ===== src/Bridge/PasswordOpen.antt =====
-- crates/vault-wasm/src/bridge.rs: opening after the text of `prepare_password_change` was stored.
use package.pocket_vault.Base.{
  ◌≤◌, ◌≡◌, ◌∙◌, sym, String, Bytes, Option, len, none, some, ok, arith, inl, inr, Result-cases,
  Option-cases, ==_iff, string_eq,
}
use package.pocket_vault.Model.{
  SlotId, slot_a, slot_b, other, VaultMetaV1, VaultContainerV1, default_config, vault_meta_eq,
}
use package.pocket_vault.Model.Validation.{validate_meta_iff}
use package.pocket_vault.Platform.{Platform, PlatformLaws}
use package.pocket_vault.Vault.{UnlockedVault, rewrap_vault_key}
use package.pocket_vault.Vault.Rewrap.{rewrap_vault_key-Opens}
use package.pocket_vault.Storage.{slot_key, meta_key, active_slot_key, pointer_to, decode_stored}
use package.pocket_vault.Storage.Effects.{TextOf}
use package.pocket_vault.Storage.Holding.{InStep, decode_stored-TextOf}
use package.pocket_vault.Bridge.State.{VaultBridge, ensure_mutable}
use package.pocket_vault.Bridge.Checks.{ensure_mutable-eq-ok}
use package.pocket_vault.Bridge.Saving.{
  prepare_password_change, plan_password_change, check_metadata, commit_password_change,
}
use package.pocket_vault.Bridge.Opening.{StorageSnapshot, open_session}
use package.pocket_vault.Bridge.Loading.{view_of, view_of_lem, session_of, open_session-SlotIn}

slots-after :
    (s : StorageSnapshot) (text : String) (place : SlotId)
    → view_of (record s { metadata_json = some text }) (slot_key place) ≡ view_of s (slot_key place)
slots-after s text slot_a =
    (view_of_lem (record s { metadata_json = some text })).1 ∙ sym ((view_of_lem s).1)
slots-after s text slot_b =
    (view_of_lem (record s { metadata_json = some text })).2 ∙ sym ((view_of_lem s).2)

module _ {R : Type 0} (platform : Platform R) (promises : PlatformLaws platform) where
  open platform use {meta_json, pointer_json}

  -- A storage with rewrapped metadata is in step with the session under the new password.
  pub rewrap_vault_key-InStep :
      (view view' : String → Option String) (current new : Bytes) (meta meta' : VaultMetaV1)
      (vault : UnlockedVault) (committed : VaultContainerV1) (rng rng' : R) (text : String)
      → InStep platform view current meta vault committed
      → rewrap_vault_key platform current new meta vault default_config rng ≡ (ok meta', rng')
      → TextOf meta_json meta' 16384 text
      → view' meta_key ≡ some text
      → ((place : SlotId) → view' (slot_key place) ≡ view (slot_key place))
      → InStep platform view' new meta' vault committed
  rewrap_vault_key-InStep view view' current new meta meta' vault committed rng rng' text h
        rewrapped is_text at_meta at_slots =
      let (_, fresh, owner, born) =
        rewrap_vault_key-Opens platform promises current new meta meta' vault default_config rng
          rng' rewrapped in
      record {
        sound = h.sound;
        owner = h.owner ∙ sym owner;
        born = h.born ∙ sym born;
        same_generation = h.same_generation;
        meta_in = record {
          readable =
              rw at_meta
                (decode_stored-TextOf meta_json promises.meta_laws meta' 16384 text is_text);
          valid = (validate_meta_iff meta').1 fresh.meta_sound;
          kek = fresh.kek;
          derived = fresh.derived;
          unwrapped = fresh.unwrapped;
        };
        slot_in = record {
          slot = h.slot_in.slot;
          readable = rw (at_slots vault.persisted_slot) h.slot_in.readable;
          in_place = h.slot_in.in_place;
          sound = rw owner h.slot_in.sound;
          opens = h.slot_in.opens;
          generation_lem = h.slot_in.generation_lem;
          born = h.slot_in.born ∙ sym born;
        };
        older = λ x readable. h.older x (rw (at_slots (other vault.persisted_slot)) at readable);
      }

  prepare_password_change-eq-ok :
      (current new : Bytes) (b b' : VaultBridge) (vault : UnlockedVault) (meta : VaultMetaV1)
      (rng rng' : R) (text : String)
      → b.vault ≡ some vault
      → b.metadata ≡ some meta
      → prepare_password_change platform current new b rng ≡ (ok text, b', rng')
      → (meta' : VaultMetaV1) × (rewrap_vault_key platform current new meta vault default_config rng
          ≡ (ok meta', rng'))
        × (meta_json.encode meta' ≡ some text)
        × (b' ≡ record b {
          pending_password_change = some (record { metadata = meta'; metadata_json = text });
        })
  unfolding prepare_password_change plan_password_change
  prepare_password_change-eq-ok current new b b' vault meta rng rng' text present known h =
      elim (Result-cases (ensure_mutable b)) [
        | inr (e, refused) ↦ absurd (ground (arith, refused))
        | inl (v, allowed) ↦
            let same : v ≡ vault =
              ground (arith, ensure_mutable-eq-ok platform b v allowed, present) in
            let mutable : ensure_mutable b ≡ ok vault = rw (← same) allowed in
            elim (Result-cases
              (rewrap_vault_key platform current new meta vault default_config rng).0) [
                | inr (e, failed) ↦ absurd (ground (arith, mutable, known, failed))
                | inl (meta', done) ↦ elim (Option-cases (meta_json.encode meta')) [
                  | inl failed ↦ absurd (ground (arith, mutable, known, done, failed))
                  | inr (text', written) ↦ (
                    meta',
                    ground (arith, mutable, known, done, written),
                    ground (arith, mutable, known, done, written),
                    ground (arith, mutable, known, done, written),
                  )
                ]
              ]
      ]

  -- The commit of the text that was prepared, read back.
  commit_prepared :
      (b : VaultBridge) (meta : VaultMetaV1) (text : String)
      → meta_json.encode meta ≡ some text
      → commit_password_change platform text (record b {
        pending_password_change = some (record { metadata = meta; metadata_json = text });
      })
        ≡ (ok tt, record b { metadata = some meta; pending_password_change = none })
  unfolding commit_password_change check_metadata
  commit_prepared b meta text encoded = ground (
    arith,
    promises.meta_laws.decode-encode meta text encoded,
    ==_iff text text,
    ==_iff meta meta,
  )

  -- A session that is in step with the storage, whose pointer names its slot, prepares a change of
  -- the password, and the text is within the limit and is stored as the metadata. Then `open` with
  -- the new password returns the container last saved, under the new metadata, and repairs nothing;
  -- and the session commits the text, read back, to the same metadata.
  pub password_change-open_session :
      (snapshot : StorageSnapshot) (current new : Bytes) (meta : VaultMetaV1)
      (vault : UnlockedVault) (committed : VaultContainerV1) (b b' : VaultBridge) (rng rng' : R)
      (text : String)
      → InStep platform (view_of snapshot) current meta vault committed
      → decode_stored pointer_json 1024 (view_of snapshot active_slot_key)
        ≡ ok (
            some (record {
              version = 1;
              slot = vault.persisted_slot;
              generation = committed.generation;
            }))
      → b.vault ≡ some vault
      → b.metadata ≡ some meta
      → prepare_password_change platform current new b rng ≡ (ok text, b', rng')
      → len text ≤ 16384
      → (meta' : VaultMetaV1) × (meta_json.encode meta' ≡ some text)
        × (open_session platform new (record snapshot { metadata_json = some text })
            ≡ ok (record {
              session = session_of (record vault { container = committed }) meta';
              repaired_pointer_json = none;
            }))
        × (commit_password_change platform text b'
            ≡ (ok tt, record b { metadata = some meta'; pending_password_change = none }))
  password_change-open_session snapshot current new meta vault committed b b' rng rng' text h
        pointed present known prepared fits =
      let (meta', rewrapped, encoded, after) =
        prepare_password_change-eq-ok current new b b' vault meta rng rng' text present known
          prepared in
      let stored = record snapshot { metadata_json = some text } in
      let (at_meta, at_a, at_b, at_pointer) = view_of_lem snapshot in
      let (at_meta', at_a', at_b', at_pointer') = view_of_lem stored in
      let step =
        rewrap_vault_key-InStep (view_of snapshot) (view_of stored) current new meta meta' vault
          committed rng rng' text h rewrapped (record { encoded = encoded; bounded = fits })
          at_meta' (slots-after snapshot text) in
      let names : pointer_to h.slot_in.slot
          ≡ record { version = 1; slot = vault.persisted_slot; generation = committed.generation } =
        rw (h.slot_in.in_place, h.slot_in.generation_lem) in
      let same : step.slot_in.slot ≡ h.slot_in.slot = ground (
        arith,
        slots-after snapshot text vault.persisted_slot,
        step.slot_in.readable,
        h.slot_in.readable,
      ) in
      (
        meta',
        encoded,
        open_session-SlotIn platform stored new vault.dek meta' vault.persisted_slot committed
            step.meta_in step.slot_in (rw h.same_generation step.older)
            (rw (at_pointer', same, names) (rw at_pointer at pointed)),
        rw after (commit_prepared b meta' text encoded),
      )
