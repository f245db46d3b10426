-- ===== src/Bridge/SaveOpen.antt =====
-- crates/vault-wasm/src/bridge.rs: opening after the bundle of `prepare_save` was stored.
use package.pocket_vault.Base.{
  ◌+◌, ◌≤◌, ◌≡◌, ap, ◌∙◌, Bytes, len, true, false, none, some, ok, ◌==◌, string_eq, if◌then◌else◌,
  arith,
}
use package.pocket_vault.Model.{
  SlotId, slot_a, slot_b, other, VaultMetaV1, VaultContainerV1, EncryptedVaultSlotV1, ActiveSlotV1,
}
use package.pocket_vault.Platform.{Platform, PlatformLaws}
use package.pocket_vault.Vault.{UnlockedVault, at_generation}
use package.pocket_vault.Vault.Commits.{advanced, encrypt_for_slot_lem}
use package.pocket_vault.Storage.{
  slot_key, slot_a_key, slot_b_key, meta_key, active_slot_key, pointer_to,
}
use package.pocket_vault.Storage.Holding.{InStep, decode_stored-TextOf, other-other}
use package.pocket_vault.Storage.Recovery.{MetaIn, SlotIn, OlderAt}
use package.pocket_vault.Bridge.State.{SaveBundle, VaultBridge}
use package.pocket_vault.Bridge.Saving.{prepare_save}
use package.pocket_vault.Bridge.Checks.{plan_save-eq-ok}
use package.pocket_vault.Bridge.Completion.{prepare_save-PreparationOf}
use package.pocket_vault.Bridge.Opening.{StorageSnapshot, open_session}
use package.pocket_vault.Bridge.Loading.{view_of, view_of_lem, session_of, open_session-SlotIn}

-- The storage after the texts of a bundle were written under their keys.
abbrev pub after_save : SaveBundle → StorageSnapshot → StorageSnapshot
after_save bundle snapshot = record snapshot {
  slot_a_json =
      if bundle.slot_name == slot_a_key then some bundle.slot_json else snapshot.slot_a_json;
  slot_b_json =
      if bundle.slot_name == slot_b_key then some bundle.slot_json else snapshot.slot_b_json;
  active_pointer_json = some bundle.active_pointer_json;
}

view_of-after_save :
    (bundle : SaveBundle) (s : StorageSnapshot) (target : SlotId)
    → bundle.slot_name ≡ slot_key target
    → (view_of (after_save bundle s) meta_key ≡ view_of s meta_key)
      × (view_of (after_save bundle s) (slot_key target) ≡ some bundle.slot_json)
      × (view_of (after_save bundle s) (slot_key (other target))
          ≡ view_of s (slot_key (other target)))
      × (view_of (after_save bundle s) active_slot_key ≡ some bundle.active_pointer_json)
unfolding other
view_of-after_save bundle s slot_a named =
    let same : (bundle.slot_name == slot_a_key) ≡ true = ap (λ n. n == slot_a_key) named in
    let differs : (bundle.slot_name == slot_b_key) ≡ false = ap (λ n. n == slot_b_key) named in
    let (at_meta, at_a, at_b, at_pointer) = view_of_lem s in
    let (at_meta', at_a', at_b', at_pointer') = view_of_lem (after_save bundle s) in
    ground (arith, at_meta, at_a, at_b, at_meta', at_a', at_b', at_pointer', same, differs)
view_of-after_save bundle s slot_b named =
    let same : (bundle.slot_name == slot_b_key) ≡ true = ap (λ n. n == slot_b_key) named in
    let differs : (bundle.slot_name == slot_a_key) ≡ false = ap (λ n. n == slot_a_key) named in
    let (at_meta, at_a, at_b, at_pointer) = view_of_lem s in
    let (at_meta', at_a', at_b', at_pointer') = view_of_lem (after_save bundle s) in
    ground (arith, at_meta, at_a, at_b, at_meta', at_a', at_b', at_pointer', same, differs)

module _ {R : Type 0} (platform : Platform R) (promises : PlatformLaws platform) where
  open platform use {slot_json, pointer_json}

  -- A session that is in step with the storage prepares a save, whose texts are within the limits
  -- and are stored under the keys that the bundle names. Then `open` with the password returns the
  -- session as the save leaves it, and repairs nothing.
  pub save-open_session :
      (snapshot : StorageSnapshot) (password : Bytes) (meta : VaultMetaV1) (vault : UnlockedVault)
      (committed : VaultContainerV1) (b b' : VaultBridge) (rng rng' : R) (bundle : SaveBundle)
      → InStep platform (view_of snapshot) password meta vault committed
      → b.vault ≡ some vault
      → prepare_save platform b rng ≡ (ok bundle, b', rng')
      → len bundle.slot_json ≤ 5242880
      → len bundle.active_pointer_json ≤ 1024
      → open_session platform password (after_save bundle snapshot)
        ≡ ok (record { session = session_of (advanced vault) meta; repaired_pointer_json = none })
  save-open_session snapshot password meta vault committed b b' rng rng' bundle h present prepared
        fits_slot fits_pointer =
      let made = prepare_save-PreparationOf platform b b' vault rng rng' bundle present prepared in
      let p = made.pending in
      let target = other vault.persisted_slot in
      let (of_slot, _, slot_text, pointer_text, pointer_lem) =
        plan_save-eq-ok platform target made.slot p made.planned in
      let (opens, envelope, place, at, _) =
        encrypt_for_slot_lem platform promises vault target rng rng' made.slot h.sound
          made.sealed in
      let named : bundle.slot_name ≡ slot_key target =
        ap (λ (x : SaveBundle). x.slot_name) made.returned
        ∙ ap (λ (x : ActiveSlotV1). slot_key x.slot) pointer_lem in
      let slot_lem : bundle.slot_json ≡ p.slot_json =
        ap (λ (x : SaveBundle). x.slot_json) made.returned in
      let ptr_lem : bundle.active_pointer_json ≡ p.active_pointer_json =
        ap (λ (x : SaveBundle). x.active_pointer_json) made.returned in
      let (at_meta, at_target, at_old, at_pointer) =
        view_of-after_save bundle snapshot target named in
      let view = view_of (after_save bundle snapshot) in
      let grown = at_generation vault.container (vault.container.generation + 1) in
      let meta_in : MetaIn platform view password meta vault.dek = record {
        readable = rw at_meta h.meta_in.readable;
        valid = h.meta_in.valid;
        kek = h.meta_in.kek;
        derived = h.meta_in.derived;
        unwrapped = h.meta_in.unwrapped;
      } in
      let slot_in : SlotIn platform view meta vault.dek target grown = record {
        slot = made.slot;
        readable = rw at_target (
            decode_stored-TextOf slot_json promises.slot_laws made.slot 5242880 bundle.slot_json
              (record { encoded = rw slot_lem slot_text; bounded = fits_slot }));
        in_place = place;
        sound = rw (← h.owner) envelope;
        opens = opens;
        generation_lem = at;
        born = h.born;
      } in
      let older : OlderAt platform view meta (other target) grown.generation = λ x readable.
        let old = rw at_old at readable in
        let here = rw other-other at old in
        let same : x ≡ h.slot_in.slot = ground (arith, here, h.slot_in.readable) in
        let of_x = ap (λ (y : EncryptedVaultSlotV1). y.generation) same in
        omega (arith, of_x, h.slot_in.generation_lem, h.same_generation) in
      let pointed =
        decode_stored-TextOf pointer_json promises.pointer_laws p.active_pointer 1024
          bundle.active_pointer_json
          (record { encoded = rw ptr_lem pointer_text; bounded = fits_pointer }) in
      let named_pointer : p.active_pointer ≡ pointer_to made.slot = pointer_lem ∙ rw place in
      open_session-SlotIn platform (after_save bundle snapshot) password vault.dek meta target grown
        meta_in slot_in older (rw (at_pointer, ← named_pointer) pointed)
