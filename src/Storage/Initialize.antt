-- ===== src/Storage/Initialize.antt =====
-- crates/vault-core/src/storage.rs: what `initialize` stores.
use package.pocket_vault.Base.{
  ℕ, ◌≡◌, ◌≢◌, refl, sym, ◌∙◌, ap, String, Bytes, [], some, ok, arith, not, guard, ◌==◌, nat_eq,
  ◌&&◌, ==_iff, string_eq,
}
use package.pocket_vault.Base.Exec.{>>=-eq-ok, lift, map_err}
use package.pocket_vault.Error.{storage, invalid_slot, already_initialized}
use package.pocket_vault.Model.{
  slot_a, other, slot_id_eq, KdfConfig, validate_meta, validate_slot, validate_pointer,
  VaultContainerV1, EncryptedVaultSlotV1,
}
use package.pocket_vault.Platform.{Platform, PlatformLaws}
use package.pocket_vault.Vault.{CreatedVault, create_vault}
use package.pocket_vault.Vault.Reopen.{create_vault-CreationOf, empty_container-IsSound}
use package.pocket_vault.Storage.Adapter.{
  DeviceStorage, StorageLaws, slot_key, slot_a_key, slot_b_key, meta_key, active_slot_key,
}
use package.pocket_vault.Storage.Json.{write_json_verified, decode_stored}
use package.pocket_vault.Storage.Effects.{
  TextOf, write_json_verified-peek_ne, write_json_verified-eq-ok,
}
use package.pocket_vault.Storage.Repository.{is_some, initialize}
use package.pocket_vault.Storage.SaveSafety.{
  active_slot_key-ne-slot_key, meta_key-ne-slot_key, meta_key-ne-active_slot_key,
}
use package.pocket_vault.Storage.Holding.{InStep, decode_stored-TextOf}

module _ {R S : Type 0} (platform : Platform R) {store : DeviceStorage S}
    (laws : StorageLaws store) where
  open laws use {peek}
  open platform use {meta_json, slot_json, pointer_json}

  -- What a finished `initialize` has stored.
  record InitializedBy (created : CreatedVault) (s s' : S) : Type 0 where
    slot_text : String
    meta_text : String
    is_slot : TextOf slot_json created.initial_slot 5242880 slot_text
    is_meta : TextOf meta_json created.metadata 16384 meta_text
    slot_stored : peek s' (slot_key created.initial_slot.slot) ≡ some slot_text
    meta_stored : peek s' meta_key ≡ some meta_text
    valid : validate_meta created.metadata ≡ ok tt
    others :
        (j : String)
        → j ≢ slot_key created.initial_slot.slot
        → j ≢ meta_key
        → j ≢ active_slot_key
        → peek s' j ≡ peek s j

  initialize-InitializedBy :
      (created : CreatedVault) (s s' : S)
      → initialize platform store created s ≡ (ok tt, s')
      → InitializedBy created s s'
  unfolding initialize
  initialize-InitializedBy created s s' h =
      let key = slot_key created.initial_slot.slot in
      let (_, s0, valid, h0) = >>=-eq-ok (lift (validate_meta created.metadata)) _ s h in
      let (_, s1, fits, h1) =
        >>=-eq-ok (lift (validate_slot created.initial_slot created.metadata.vault_id)) _ s0 h0 in
      let (_, s2, points, h2) = >>=-eq-ok (lift (validate_pointer created.active_slot)) _ s1 h1 in
      let (_, s3, matches, h3) =
        >>=-eq-ok
          (lift (
            guard
              (created.initial_slot.slot == created.active_slot.slot
                && created.initial_slot.generation == created.active_slot.generation)
              (invalid_slot "initial slot and active pointer do not match")))
          _ s2 h2 in
      let (existing, s4, read, h4) = >>=-eq-ok (map_err storage (store.get meta_key)) _ s3 h3 in
      let (_, s5, absent, h5) =
        >>=-eq-ok (lift (guard (not (is_some existing)) already_initialized)) _ s4 h4 in
      let (_, s6, wrote_slot, h6) =
        >>=-eq-ok (write_json_verified store slot_json key created.initial_slot 5242880) _ s5 h5 in
      let (_, s7, wrote_meta, h7) =
        >>=-eq-ok (write_json_verified store meta_json meta_key created.metadata 16384) _ s6 h6 in
      let w1 =
        write_json_verified-eq-ok laws slot_json key created.initial_slot 5242880 s5
          (ground (arith, wrote_slot)) in
      let w2 =
        write_json_verified-eq-ok laws meta_json meta_key created.metadata 16384 s6
          (ground (arith, wrote_meta)) in
      let start : s3 ≡ s = ground (arith, valid, fits, points, matches) in
      let guarded : s5 ≡ s4 = ground (arith, absent) in
      let by_slot = λ (j : String) (ne : j ≢ key).
        write_json_verified-peek_ne laws slot_json key created.initial_slot 5242880 s5 j ne in
      let by_meta = λ (j : String) (ne : j ≢ meta_key).
        write_json_verified-peek_ne laws meta_json meta_key created.metadata 16384 s6 j ne in
      let by_pointer = λ (j : String) (ne : j ≢ active_slot_key).
        write_json_verified-peek_ne laws pointer_json active_slot_key created.active_slot 1024 s7 j
          ne in
      record {
        slot_text = w1.0;
        meta_text = w2.0;
        is_slot = w1.1;
        is_meta = w2.1;
        slot_stored = ground (
          arith,
          wrote_slot,
          wrote_meta,
          h7,
          w1.2,
          by_meta key (λ e. meta_key-ne-slot_key created.initial_slot.slot (sym e)),
          by_pointer key (λ e. active_slot_key-ne-slot_key created.initial_slot.slot (sym e)),
        );
        meta_stored =
            ground (arith, wrote_meta, h7, w2.2, by_pointer meta_key meta_key-ne-active_slot_key);
        valid = ground (arith, valid);
        others = λ j not_slot not_meta not_pointer. ground (
          arith,
          wrote_slot,
          wrote_meta,
          h7,
          start,
          guarded,
          read,
          laws.get-peek meta_key s3 j,
          by_slot j not_slot,
          by_meta j not_meta,
          by_pointer j not_pointer,
        );
      }

  -- A vault is created with a password and stored by `initialize` where no slot can be read under the
  -- second slot's key, whether nothing stands there or a text that is no slot. Then the new session and the
  -- storage are in step: the password leads from the stored metadata to the session's key, which
  -- decrypts the stored slot to the session's container; and that container has no entries.
  pub initialize-InStep :
      (promises : PlatformLaws platform) (password : Bytes) (config : KdfConfig) (now : ℕ)
      (rng rng' : R) (created : CreatedVault) (s s' : S)
      → create_vault platform password config now rng ≡ (ok created, rng')
      → initialize platform store created s ≡ (ok tt, s')
      → ((x : EncryptedVaultSlotV1)
          → decode_stored slot_json 5242880 (peek s slot_b_key) ≢ ok (some x))
      → InStep platform
          (peek s')
          password
          created.metadata
          created.unlocked
          created.unlocked.container
        × (created.unlocked.container.entries ≡ [])
  unfolding other
  initialize-InStep promises password config now rng rng' created s s' c h fresh =
      let made = create_vault-CreationOf platform promises password config now rng rng' created c in
      let done = initialize-InitializedBy created s s' h in
      let at_a : created.initial_slot.slot ≡ slot_a = made.place ∙ made.first_place in
      let kept : peek s' slot_b_key ≡ peek s slot_b_key =
        done.others slot_b_key (λ e. cc ((==_iff slot_b_key slot_a_key).1 (e ∙ ap slot_key at_a)))
          (λ e. cc ((==_iff slot_b_key meta_key).1 e))
          (λ e. cc ((==_iff slot_b_key active_slot_key).1 e)) in
      let in_step : InStep platform (peek s') password created.metadata created.unlocked
          created.unlocked.container =
        record {
          sound =
              rw made.container_lem
                (empty_container-IsSound created.metadata.vault_id created.metadata.created_at);
          owner = ap (λ (x : VaultContainerV1). x.vault_id) made.container_lem;
          born = ap (λ (x : VaultContainerV1). x.created_at) made.container_lem;
          same_generation = refl;
          meta_in = record {
            readable = rw done.meta_stored (
                decode_stored-TextOf meta_json promises.meta_laws created.metadata 16384
                  done.meta_text done.is_meta);
            valid = done.valid;
            kek = made.kek;
            derived = made.derived;
            unwrapped = made.unwrapped;
          };
          slot_in = record {
            slot = created.initial_slot;
            readable =
                rw (← made.place, done.slot_stored)
                  (decode_stored-TextOf slot_json promises.slot_laws created.initial_slot 5242880
                    done.slot_text done.is_slot);
            in_place = made.place;
            sound = made.slot_sound;
            opens = made.decrypted;
            generation_lem = made.generation_lem;
            born = ap (λ (x : VaultContainerV1). x.created_at) made.container_lem;
          };
          older = rw made.first_place λ x readable. absurd (fresh x (rw kept at readable));
        } in
      (in_step, ap (λ (x : VaultContainerV1). x.entries) made.container_lem)
