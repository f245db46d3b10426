-- ===== src/Bridge/Reopen.antt =====
-- crates/vault-wasm/src/bridge.rs: opening what `create` and `prepare_save` gave to be stored.
use package.pocket_vault.Base.{
  ℕ, ◌≤◌, ◌≡◌, ap, Bytes, String, len, none, some, ok, Option-cases, inl, inr, arith, string_eq,
}
use package.pocket_vault.Base.Exec as X
use package.pocket_vault.Base.Exec.{>>=-eq-ok, lift}
use package.pocket_vault.Model.{slot_a, other, default_config, VaultContainerV1}
use package.pocket_vault.Model.Validation.{validate_meta_iff}
use package.pocket_vault.Platform.{Platform, PlatformLaws}
use package.pocket_vault.Vault.{CreatedVault, create_vault}
use package.pocket_vault.Vault.Reopen.{create_vault-CreationOf}
use package.pocket_vault.Storage.{slot_key}
use package.pocket_vault.Storage.Effects.{TextOf}
use package.pocket_vault.Storage.Holding.{decode_stored-TextOf}
use package.pocket_vault.Storage.Recovery.{MetaIn, SlotIn, OlderAt}
use package.pocket_vault.Bridge.State.{in_vault}
use package.pocket_vault.Bridge.Opening.{StorageSnapshot, CreateBundle, create, open_session}
use package.pocket_vault.Bridge.Loading.{view_of, view_of_lem, session_of, open_session-SlotIn}

-- The storage in which only a created bundle was put, under the keys that it names.
abbrev pub snapshot_of : CreateBundle → StorageSnapshot
snapshot_of bundle = record {
  metadata_json = some bundle.metadata_json;
  slot_a_json = some bundle.slot_json;
  slot_b_json = none;
  active_pointer_json = some bundle.active_pointer_json;
}

module _ {R : Type 0} (platform : Platform R) where
  open platform use {meta_json, slot_json, pointer_json}

  -- What a finished `create` has made.
  record MadeBy (password : Bytes) (now : ℕ) (rng rng' : R) (bundle : CreateBundle) : Type 0 where
    created : CreatedVault
    ran : create_vault platform password default_config now rng ≡ (ok created, rng')
    meta_text : meta_json.encode created.metadata ≡ some bundle.metadata_json
    slot_text : slot_json.encode created.initial_slot ≡ some bundle.slot_json
    pointer_text : pointer_json.encode created.active_slot ≡ some bundle.active_pointer_json
    session_lem : bundle.session ≡ session_of created.unlocked created.metadata
    named : bundle.slot_name ≡ slot_key created.initial_slot.slot

  create-MadeBy :
      (password : Bytes) (now : ℕ) (rng rng' : R) (bundle : CreateBundle)
      → create platform password now rng ≡ (ok bundle, rng')
      → MadeBy password now rng rng' bundle
  unfolding create
  create-MadeBy password now rng rng' bundle h =
      let (created, t, ran, h0) =
        >>=-eq-ok (X.map_err in_vault (create_vault platform password default_config now)) _ rng
          h in
      elim (Option-cases (meta_json.encode created.metadata)) [
        | inl bad ↦ absurd (ground (arith, bad))
        | inr (m, meta_text) ↦ elim (Option-cases (slot_json.encode created.initial_slot)) [
          | inl bad ↦ absurd (ground (arith, meta_text, bad))
          | inr (s, slot_text) ↦ elim (Option-cases (pointer_json.encode created.active_slot)) [
            | inl bad ↦ absurd (ground (arith, meta_text, slot_text, bad))
            | inr (p, pointer_text) ↦ record {
              created = created;
              ran = ground (arith, ran, meta_text, slot_text, pointer_text);
              meta_text = ground (arith, meta_text, slot_text, pointer_text);
              slot_text = ground (arith, meta_text, slot_text, pointer_text);
              pointer_text = ground (arith, meta_text, slot_text, pointer_text);
              session_lem = ground (arith, meta_text, slot_text, pointer_text);
              named = ground (arith, meta_text, slot_text, pointer_text);
            }
          ]
        ]
      ]

  -- A created vault opens from a storage that holds its texts.
  created-open_session :
      (promises : PlatformLaws platform) (password : Bytes) (now : ℕ) (rng rng' : R)
      (created : CreatedVault) (meta_text slot_text pointer_text : String)
      → create_vault platform password default_config now rng ≡ (ok created, rng')
      → TextOf meta_json created.metadata 16384 meta_text
      → TextOf slot_json created.initial_slot 5242880 slot_text
      → TextOf pointer_json created.active_slot 1024 pointer_text
      → open_session platform password (record {
        metadata_json = some meta_text;
        slot_a_json = some slot_text;
        slot_b_json = none;
        active_pointer_json = some pointer_text;
      })
        ≡ ok (record {
          session = session_of created.unlocked created.metadata;
          repaired_pointer_json = none;
        })
  created-open_session promises password now rng rng' created meta_text slot_text pointer_text ran
        is_meta is_slot is_pointer =
      let snapshot : StorageSnapshot = record {
        metadata_json = some meta_text;
        slot_a_json = some slot_text;
        slot_b_json = none;
        active_pointer_json = some pointer_text;
      } in
      let view = view_of snapshot in
      let dek = created.unlocked.dek in
      let place = created.unlocked.persisted_slot in
      let (at_meta, at_a, at_b, at_pointer) = view_of_lem snapshot in
      let of =
        create_vault-CreationOf platform promises password default_config now rng rng' created
          ran in
      let meta_in : MetaIn platform view password created.metadata dek = record {
        readable = rw at_meta (
            decode_stored-TextOf meta_json promises.meta_laws created.metadata 16384 meta_text
              is_meta);
        valid = (validate_meta_iff created.metadata).1 of.meta_sound;
        kek = of.kek;
        derived = of.derived;
        unwrapped = of.unwrapped;
      } in
      let slot_in : SlotIn platform view created.metadata dek place created.unlocked.container =
        record {
          slot = created.initial_slot;
          readable =
              rw (of.first_place, at_a)
                (decode_stored-TextOf slot_json promises.slot_laws created.initial_slot 5242880
                  slot_text is_slot);
          in_place = of.place;
          sound = of.slot_sound;
          opens = of.decrypted;
          generation_lem = of.generation_lem;
          born = ap (λ (x : VaultContainerV1). x.created_at) of.container_lem;
        } in
      let pointed =
        decode_stored-TextOf pointer_json promises.pointer_laws created.active_slot 1024
          pointer_text is_pointer in
      let none_older : OlderAt platform view created.metadata (other slot_a)
          created.unlocked.container.generation =
        unfold other in λ x readable. cc (rw at_b at readable) in
      open_session-SlotIn platform snapshot password dek created.metadata place
        created.unlocked.container meta_in slot_in (rw of.first_place none_older)
        (rw (at_pointer, ← of.pointer_lem) pointed)

  -- A bundle that `create` made, whose texts are within the limits, is put into an empty storage.
  -- Then `open` with the same password returns the created session, and repairs nothing.
  pub create-open_session :
      (promises : PlatformLaws platform) (password : Bytes) (now : ℕ) (rng rng' : R)
      (bundle : CreateBundle)
      → create platform password now rng ≡ (ok bundle, rng')
      → len bundle.metadata_json ≤ 16384
      → len bundle.slot_json ≤ 5242880
      → len bundle.active_pointer_json ≤ 1024
      → open_session platform password (snapshot_of bundle)
        ≡ ok (record { session = bundle.session; repaired_pointer_json = none })
  create-open_session promises password now rng rng' bundle h fits_meta fits_slot fits_pointer =
      let made = create-MadeBy password now rng rng' bundle h in
      let opens =
        created-open_session promises password now rng rng' made.created bundle.metadata_json
          bundle.slot_json bundle.active_pointer_json made.ran
          (record { encoded = made.meta_text; bounded = fits_meta })
          (record { encoded = made.slot_text; bounded = fits_slot })
          (record { encoded = made.pointer_text; bounded = fits_pointer }) in
      rw made.session_lem opens
