-- ===== src/Storage/Best.antt =====
-- crates/vault-core/src/storage.rs: which slot `open` prefers.
use package.pocket_vault.Base.{
  ℕ, ◌≡◌, ◌≤◌, inl, inr, refl, sym, ap, ◌∙◌, true, String, Bytes, List, Option, none, some, ◌∷◌, ok,
  arith, Elem, ==_iff, nat_eq, option_eq,
}
use package.pocket_vault.Model.{
  SlotId, slot_a, slot_b, slot_id_eq, EncryptedVaultSlotV1, ActiveSlotV1, active_slot_eq,
  VaultContainerV1, VaultMetaV1, validate_container,
}
use package.pocket_vault.Model.Validation.{validate_container_iff}
use package.pocket_vault.Platform.{Platform}
use package.pocket_vault.Vault.{UnlockedVault, decrypt_container}
use package.pocket_vault.Storage.Adapter.{active_slot_key, slot_key}
use package.pocket_vault.Storage.Json.{decode_stored}
use package.pocket_vault.Storage.Select.{
  Candidate, points_to, usable_pointer, usable_slot, authenticated,
}
use package.pocket_vault.Storage.Reference.{Choice, slots_in_view, open_view}
use package.pocket_vault.Storage.Selection.{Preferred, Elem-authenticated, authenticated-Elem}
use package.pocket_vault.Storage.Newest.{slots_in_view-Elem, Elem-usable_slot, Elem-slots_in_view}
use package.pocket_vault.Storage.Recovery.{SlotIn, MetaIn}
use package.pocket_vault.Storage.Decision.{session_at}
use package.pocket_vault.Storage.Selecting.{
  first-Preferred, first-sort_by_head, usable_pointer-eq-some, usable_pointer-named, select-eq-ok,
  select-some, open_view-eq-ok,
}

-- The pointer in the view can be read, and names this slot and generation.
abbrev pub Names : {R : Type 0} → Platform R → (String → Option String) → SlotId → ℕ → Type 0
Names platform view place generation =
    decode_stored platform.pointer_json 1024 (view active_slot_key)
    ≡ ok (some (record { version = 1; slot = place; generation = generation }))

-- The session of the slot that is to be preferred: the view holds it, no slot that the view holds
-- under the same key is of a later generation; if the pointer names one of equal generation, then
-- it is this one; and if the pointer does not name this one, the first slot is not of equal
-- generation unless it is this one.
pub record Best {R : Type 0} (platform : Platform R) (view : String → Option String)
    (password : Bytes) (meta : VaultMetaV1) (vault : UnlockedVault) : Type 0 where
  pub meta_in : MetaIn platform view password meta vault.dek
  pub slot_in : SlotIn platform view meta vault.dek vault.persisted_slot vault.container
  pub newest :
      (place : SlotId) (c : VaultContainerV1)
      → SlotIn platform view meta vault.dek place c
      → c.generation ≤ vault.container.generation
  pub pointed :
      (place : SlotId) (c : VaultContainerV1)
      → SlotIn platform view meta vault.dek place c
      → c.generation ≡ vault.container.generation
      → Names platform view place c.generation
      → place ≡ vault.persisted_slot
  pub unpointed :
      (c : VaultContainerV1)
      → SlotIn platform view meta vault.dek slot_a c
      → c.generation ≡ vault.container.generation
      → ¬ Names platform view vault.persisted_slot vault.container.generation
      → vault.persisted_slot ≡ slot_a

authenticated-cons :
    {R : Type 0} (platform : Platform R) (dek : Bytes) (created_at : ℕ) (x : EncryptedVaultSlotV1)
    (slots : List EncryptedVaultSlotV1) (c : VaultContainerV1)
    → decrypt_container platform dek x ≡ ok c
    → c.created_at ≡ created_at
    → authenticated platform dek created_at (x ∷ slots)
      ≡ (x, c) ∷ authenticated platform dek created_at slots
unfolding authenticated
authenticated-cons platform dek created_at x slots c opens born =
    ground (arith, opens, ==_iff c.created_at created_at)

module _ {R : Type 0} (platform : Platform R) (view : String → Option String) where
  open platform use {meta_json, pointer_json}

  decrypt_container-generation :
      (dek : Bytes) (slot : EncryptedVaultSlotV1) (c : VaultContainerV1)
      → decrypt_container platform dek slot ≡ ok c
      → slot.generation ≡ c.generation
  unfolding decrypt_container
  decrypt_container-generation dek slot c h =
      let iff = validate_container_iff c slot.vault_id slot.generation in
      let valid : validate_container c slot.vault_id slot.generation ≡ ok tt = ground arith in
      ground (arith, iff.0 valid)

  SlotIn-Elem :
      (password : Bytes) (meta : VaultMetaV1) (dek : Bytes) (place : SlotId) (c : VaultContainerV1)
      (s : SlotIn platform view meta dek place c)
      → Elem
          (s.slot, c)
          (authenticated platform dek meta.created_at (slots_in_view platform view meta.vault_id))
  SlotIn-Elem password meta dek place c s =
      Elem-authenticated platform dek meta.created_at (slots_in_view platform view meta.vault_id)
        s.slot c
        (Elem-slots_in_view platform view meta.vault_id place s.slot s.readable s.in_place s.sound)
        s.opens s.born

  tie-Names :
      (pointer : Option ActiveSlotV1) (best y : Candidate)
      → pointer ≡ usable_pointer (decode_stored pointer_json 1024 (view active_slot_key))
      → Preferred pointer best y
      → y.0.generation ≡ best.0.generation
      → Names platform view y.0.slot y.0.generation
      → y.0.slot ≡ best.0.slot
  tie-Names pointer best y read p same named =
      let named_pointer : ActiveSlotV1 = record {
        version = 1;
        slot = y.0.slot;
        generation = y.0.generation;
      } in
      let points : pointer ≡ some named_pointer =
        read ∙ rw named (usable_pointer-named named_pointer refl) in
      let to_y : points_to pointer y.0 ≡ true =
        rw points (ground (arith, ==_iff y.0.slot y.0.slot)) in
      let to_best : points_to pointer best.0 ≡ true = p.tie same to_y in
      ground (arith, rw points at to_best, ==_iff y.0.slot best.0.slot)

  Names-points_to :
      (pointer : Option ActiveSlotV1) (x : EncryptedVaultSlotV1)
      → pointer ≡ usable_pointer (decode_stored pointer_json 1024 (view active_slot_key))
      → points_to pointer x ≡ true
      → Names platform view x.slot x.generation
  Names-points_to none x read h = cc
  Names-points_to (some p) x read h =
      let (found, version) = usable_pointer-eq-some _ p (sym read) in
      let same : p ≡ record { version = 1; slot = x.slot; generation = x.generation } =
        ground (arith, version, h, ==_iff p.slot x.slot) in
      rw same at found

  -- The first slot is read first.
  slot_a-first :
      (meta : VaultMetaV1) (dek : Bytes) (c : VaultContainerV1)
      (s : SlotIn platform view meta dek slot_a c)
      → authenticated platform dek meta.created_at (slots_in_view platform view meta.vault_id)
        ≡ (s.slot, c)
          ∷ authenticated platform dek meta.created_at (
              usable_slot slot_b meta.vault_id
                (decode_stored platform.slot_json 5242880 (view (slot_key slot_b))))
  slot_a-first meta dek c s =
      let usable = Elem-usable_slot slot_a meta.vault_id s.slot s.in_place s.sound in
      rw (s.readable, usable)
        (authenticated-cons platform dek meta.created_at s.slot _ c s.opens s.born)

  -- What `open` decides is the best session, whose generation is the slot's.
  pub open_view-Best :
      (password : Bytes) (choice : Choice)
      → open_view platform view password ≡ ok choice
      → ((meta : VaultMetaV1) × Best platform view password meta (session_at choice))
        × (choice.chosen.0.generation ≡ choice.chosen.1.generation)
        × (choice.pointer ≡ usable_pointer (decode_stored pointer_json 1024 (view active_slot_key)))
  open_view-Best password choice h =
      let (meta, readable, valid, pointer, chose) =
        open_view-eq-ok platform view password choice h in
      let slots = slots_in_view platform view meta.vault_id in
      let (kek, derived, unwrapped, is_first) =
        select-eq-ok platform password meta choice.pointer slots choice.chosen choice.dek chose in
      let (elem, preferred) = first-Preferred choice.pointer _ choice.chosen is_first in
      let (in_slots, opens, born) =
        authenticated-Elem platform choice.dek meta.created_at slots choice.chosen elem in
      let (found, sound) =
        slots_in_view-Elem platform view meta.vault_id choice.chosen.0 in_slots in
      let at = decrypt_container-generation choice.dek choice.chosen.0 choice.chosen.1 opens in
      let better : (place : SlotId) (c : VaultContainerV1)
            (s : SlotIn platform view meta choice.dek place c)
          → Preferred choice.pointer choice.chosen (s.slot, c) =
        λ place c s. preferred (s.slot, c) (SlotIn-Elem password meta choice.dek place c s) in
      (
        (
          meta,
          record {
            meta_in = record {
              readable = readable;
              valid = valid;
              kek = kek;
              derived = derived;
              unwrapped = unwrapped;
            };
            slot_in = record {
              slot = choice.chosen.0;
              readable = found;
              in_place = refl;
              sound = sound;
              opens = opens;
              generation_lem = at;
              born = born;
            };
            newest = λ place c s. omega (arith, (better place c s).newer, s.generation_lem, at);
            pointed = λ place c s same named. rw (← s.in_place) (
                tie-Names choice.pointer choice.chosen (s.slot, c) pointer (better place c s)
                  (omega (arith, same, s.generation_lem, at))
                  (rw (s.in_place, s.generation_lem) named));
            unpointed = λ c s same unnamed.
                let head = rw (slot_a-first meta choice.dek c s) at is_first in
                elim (first-sort_by_head choice.pointer (s.slot, c) choice.chosen
                  (authenticated platform choice.dek meta.created_at (
                    usable_slot slot_b meta.vault_id
                      (decode_stored platform.slot_json 5242880 (view (slot_key slot_b)))))
                  head (omega (arith, same, s.generation_lem, at))) [
                    | inl stays ↦ ap (λ (x : Candidate). x.0.slot) stays ∙ s.in_place
                    | inr points ↦ absurd (
                        unnamed (
                          rw at at (Names-points_to choice.pointer choice.chosen.0 pointer points)))
                  ];
          },
        ),
        at,
        pointer,
      )

  -- Where a slot belongs to the password, `open` decides.
  pub SlotIn-open_view-ok :
      (password : Bytes) (meta : VaultMetaV1) (dek : Bytes) (place : SlotId) (c : VaultContainerV1)
      → MetaIn platform view password meta dek
      → SlotIn platform view meta dek place c
      → (choice : Choice) × (open_view platform view password ≡ ok choice)
  unfolding open_view
  SlotIn-open_view-ok password meta dek place c m s =
      let pointer = usable_pointer (decode_stored pointer_json 1024 (view active_slot_key)) in
      let (r, chose) =
        select-some platform password m.kek dek meta pointer
          (slots_in_view platform view meta.vault_id) (s.slot, c) m.derived m.unwrapped
          (SlotIn-Elem password meta dek place c s) in
      (
        record { pointer = pointer; chosen = r.0; dek = r.1 },
        ground (arith, m.readable, m.valid, chose),
      )
