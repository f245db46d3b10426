-- ===== src/Storage/Recovery.antt =====
-- crates/vault-core/src/storage.rs: opening after a save, finished or not.
use package.pocket_vault.Base.{
  ℕ, ◌≡◌, ◌<◌, ◌⊎◌, inl, inr, refl, String, Bytes, Option, some, ok, arith, Elem,
}
use package.pocket_vault.Model.{
  SlotId, slot_a, slot_b, other, EncryptedVaultSlotV1, VaultContainerV1, VaultMetaV1, validate_meta,
}
use package.pocket_vault.Model.Spec.{SlotIsSound}
use package.pocket_vault.Platform.{Platform}
use package.pocket_vault.Crypto.{derive_kek, unwrap_dek}
use package.pocket_vault.Vault.{decrypt_container}
use package.pocket_vault.Storage.Adapter.{slot_key, meta_key, active_slot_key}
use package.pocket_vault.Storage.Json.{decode_stored}
use package.pocket_vault.Storage.Select.{usable_pointer}
use package.pocket_vault.Storage.Reference.{Choice, slots_in_view, open_view}
use package.pocket_vault.Storage.Newest.{slots_in_view-Elem, Elem-slots_in_view, select-newest}

-- The view holds a slot that decrypts under the session's key to `container`, in its place.
pub record SlotIn {R : Type 0} (platform : Platform R) (view : String → Option String)
    (meta : VaultMetaV1) (dek : Bytes) (place : SlotId) (container : VaultContainerV1)
    : Type 0 where
  pub slot : EncryptedVaultSlotV1
  pub readable : decode_stored platform.slot_json 5242880 (view (slot_key place)) ≡ ok (some slot)
  pub in_place : slot.slot ≡ place
  pub sound : SlotIsSound slot meta.vault_id
  pub opens : decrypt_container platform dek slot ≡ ok container
  pub generation_lem : slot.generation ≡ container.generation
  pub born : container.created_at ≡ meta.created_at

-- A readable slot under the key of `place` is older than the generation.
abbrev pub OlderAt :
    {R : Type 0} → Platform R → (String → Option String) → VaultMetaV1 → SlotId → ℕ → Type 0
OlderAt platform view meta place generation =
    (x : EncryptedVaultSlotV1)
    → decode_stored platform.slot_json 5242880 (view (slot_key place)) ≡ ok (some x)
    → x.generation < generation

-- The metadata in the view lead from the password to the key.
pub record MetaIn {R : Type 0} (platform : Platform R) (view : String → Option String)
    (password : Bytes) (meta : VaultMetaV1) (dek : Bytes) : Type 0 where
  pub readable : decode_stored platform.meta_json 16384 (view meta_key) ≡ ok (some meta)
  pub valid : validate_meta meta ≡ ok tt
  pub kek : Bytes
  pub derived : derive_kek platform password meta.vault_id meta.kdf ≡ ok kek
  pub unwrapped : unwrap_dek platform kek meta.wrapped_dek meta.vault_id ≡ ok dek

-- Both carry over to a view that shows the same under their key.
pub SlotIn-view :
    {R : Type 0} (platform : Platform R) (view view' : String → Option String) (meta : VaultMetaV1)
    (dek : Bytes) (place : SlotId) (container : VaultContainerV1)
    → view' (slot_key place) ≡ view (slot_key place)
    → SlotIn platform view meta dek place container
    → SlotIn platform view' meta dek place container
SlotIn-view platform view view' meta dek place container same h = record {
  slot = h.slot;
  readable = rw same h.readable;
  in_place = h.in_place;
  sound = h.sound;
  opens = h.opens;
  generation_lem = h.generation_lem;
  born = h.born;
}

pub MetaIn-view :
    {R : Type 0} (platform : Platform R) (view view' : String → Option String) (password : Bytes)
    (meta : VaultMetaV1) (dek : Bytes)
    → view' meta_key ≡ view meta_key
    → MetaIn platform view password meta dek
    → MetaIn platform view' password meta dek
MetaIn-view platform view view' password meta dek same h = record {
  readable = rw same h.readable;
  valid = h.valid;
  kek = h.kek;
  derived = h.derived;
  unwrapped = h.unwrapped;
}

-- `open` returns this container, from this place.
pub record OpensTo {R : Type 0} (platform : Platform R) (view : String → Option String)
    (password dek : Bytes) (place : SlotId) (container : VaultContainerV1) : Type 0 where
  pub choice : Choice
  pub decided : open_view platform view password ≡ ok choice
  pub key : choice.dek ≡ dek
  pub from : choice.chosen.0.slot ≡ place
  pub contents : choice.chosen.1 ≡ container

place-cases : (p q : SlotId) → (q ≡ p) ⊎ (q ≡ other p)
unfolding other
place-cases slot_a slot_a = inl refl
place-cases slot_a slot_b = inr refl
place-cases slot_b slot_a = inr refl
place-cases slot_b slot_b = inl refl

module _ {R : Type 0} (platform : Platform R) (view : String → Option String) (password dek : Bytes)
    (meta : VaultMetaV1) (place : SlotId) (container : VaultContainerV1) where
  -- What `open` decides where the slot is newer than the other.
  pub SlotIn-open_view :
      MetaIn platform view password meta dek
      → (s : SlotIn platform view meta dek place container)
      → OlderAt platform view meta (other place) container.generation
      → open_view platform view password
        ≡ ok (record {
          pointer =
              usable_pointer (decode_stored platform.pointer_json 1024 (view active_slot_key));
          chosen = (s.slot, container);
          dek = dek;
        })
  unfolding open_view
  SlotIn-open_view m s older =
      let pointer =
        usable_pointer (decode_stored platform.pointer_json 1024 (view active_slot_key)) in
      let slots = slots_in_view platform view meta.vault_id in
      let newest : (x : EncryptedVaultSlotV1)
          → Elem x slots
          → (x ≡ s.slot) ⊎ (x.generation < s.slot.generation) =
        λ x e.
          let (readable, sound) = slots_in_view-Elem platform view meta.vault_id x e in
          elim (place-cases place x.slot) [
            | inl here ↦ inl (ground (arith, readable, s.readable, here))
            | inr there ↦ inr (omega (arith, older x (simp (← there) readable), s.generation_lem))
          ] in
      let chosen =
        select-newest platform pointer password m.kek dek meta slots s.slot container m.derived
          m.unwrapped
          (Elem-slots_in_view platform view meta.vault_id place s.slot s.readable s.in_place
            s.sound)
          s.opens s.born newest in
      ground (arith, m.readable, m.valid, chosen)

  pub SlotIn-OpensTo :
      MetaIn platform view password meta dek
      → SlotIn platform view meta dek place container
      → OlderAt platform view meta (other place) container.generation
      → OpensTo platform view password dek place container
  SlotIn-OpensTo m s older = record {
    choice = record {
      pointer = usable_pointer (decode_stored platform.pointer_json 1024 (view active_slot_key));
      chosen = (s.slot, container);
      dek = dek;
    };
    decided = SlotIn-open_view m s older;
    key = refl;
    from = s.in_place;
    contents = refl;
  }
