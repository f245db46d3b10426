-- ===== src/Bridge/Loading.antt =====
-- crates/vault-wasm/src/bridge.rs: `open` on a snapshot that holds a newest slot and a pointer to it.
use package.pocket_vault.Base.{
  ◌≡◌, refl, Bytes, String, Option, none, some, ok, ◌==◌, ==_iff, string_eq, option_eq,
  if◌then◌else◌, arith, Option-cases, inl, inr,
}
use package.pocket_vault.Model.{
  SlotId, other, VaultMetaV1, VaultContainerV1, active_slot_eq, validate_pointer,
}
use package.pocket_vault.Platform.{Platform}
use package.pocket_vault.Vault.{UnlockedVault}
use package.pocket_vault.Storage.{
  MemoryStorage, memory_storage, empty_memory, lookup, insert_raw, lookup-insert, meta_key,
  slot_a_key, slot_b_key, active_slot_key, decode_stored, usable_pointer, pointer_to,
}
use package.pocket_vault.Storage.Reference.{Shows, open_vault-open_view}
use package.pocket_vault.Storage.Recovery.{MetaIn, SlotIn, OlderAt, SlotIn-open_view}
use package.pocket_vault.Bridge.State.{VaultBridge}
use package.pocket_vault.Bridge.Opening.{StorageSnapshot, insert_optional, load, open_session}

abbrev pub or_else : Option String → Option String → Option String
or_else (some value) later = some value
or_else none later = later

lookup-insert_optional :
    (k : String) (v : Option String) (m : MemoryStorage) (j : String)
    → lookup j (insert_optional k v m).values
      ≡ (if k == j then or_else v (lookup j m.values) else lookup j m.values)
unfolding insert_optional insert_raw
lookup-insert_optional k none m j = ground arith
lookup-insert_optional k (some v) m j = ground (arith, lookup-insert k j v m.values)

no_failures :
    (k : String) (v : Option String) (m : MemoryStorage)
    → ((insert_optional k v m).fail_get ≡ m.fail_get)
unfolding insert_optional insert_raw
no_failures k none m = refl
no_failures k (some v) m = refl

-- What stands in the memory that `open` fills.
abbrev pub view_of : StorageSnapshot → String → Option String
view_of snapshot k = lookup k (load snapshot).values

pub view_of_lem :
    (s : StorageSnapshot)
    → (view_of s meta_key ≡ s.metadata_json)
      × (view_of s slot_a_key ≡ s.slot_a_json)
      × (view_of s slot_b_key ≡ s.slot_b_json)
      × (view_of s active_slot_key ≡ s.active_pointer_json)
unfolding load
view_of_lem s =
    let m1 = insert_optional meta_key s.metadata_json empty_memory in
    let m2 = insert_optional slot_a_key s.slot_a_json m1 in
    let m3 = insert_optional slot_b_key s.slot_b_json m2 in
    let at = λ (j : String). lookup-insert_optional active_slot_key s.active_pointer_json m3 j in
    let at_b = λ (j : String). lookup-insert_optional slot_b_key s.slot_b_json m2 j in
    let at_a = λ (j : String). lookup-insert_optional slot_a_key s.slot_a_json m1 j in
    let at_meta = λ (j : String). lookup-insert_optional meta_key s.metadata_json empty_memory j in
    (
      ground (arith, at meta_key, at_b meta_key, at_a meta_key, at_meta meta_key),
      ground (arith, at slot_a_key, at_b slot_a_key, at_a slot_a_key, at_meta slot_a_key),
      ground (arith, at slot_b_key, at_b slot_b_key, at_a slot_b_key, at_meta slot_b_key),
      ground (
        arith,
        at active_slot_key,
        at_b active_slot_key,
        at_a active_slot_key,
        at_meta active_slot_key,
      ),
    )

pub Shows-view_of :
    {R : Type 0} (platform : Platform R) (s : StorageSnapshot)
    → Shows platform memory_storage (load s) (view_of s)
unfolding load
Shows-view_of platform s k =
    let m1 = insert_optional meta_key s.metadata_json empty_memory in
    let m2 = insert_optional slot_a_key s.slot_a_json m1 in
    let m3 = insert_optional slot_b_key s.slot_b_json m2 in
    ground (
      arith,
      no_failures active_slot_key s.active_pointer_json m3,
      no_failures slot_b_key s.slot_b_json m2,
      no_failures slot_a_key s.slot_a_json m1,
      no_failures meta_key s.metadata_json empty_memory,
    )

-- The session of an opened bundle.
abbrev pub session_of : UnlockedVault → VaultMetaV1 → VaultBridge
session_of vault meta = record {
  vault = some vault;
  metadata = some meta;
  pending = none;
  pending_password_change = none;
}

module _ {R : Type 0} (platform : Platform R) (s : StorageSnapshot) where
  open platform use {meta_json, pointer_json}

  pub stored_meta :
      (meta : VaultMetaV1)
      → decode_stored meta_json 16384 (view_of s meta_key) ≡ ok (some meta)
      → (text : String) × (s.metadata_json ≡ some text) × (meta_json.decode text ≡ some meta)
  stored_meta meta h = elim (Option-cases s.metadata_json) [
    | inl missing ↦ absurd (ground (arith, (view_of_lem s).0, missing))
    | inr (text, present) ↦ elim (Option-cases (meta_json.decode text)) [
      | inl bad ↦ absurd (ground (arith, (view_of_lem s).0, present, bad))
      | inr (m, decoded) ↦
          let same : m ≡ meta = ground (arith, (view_of_lem s).0, present, decoded) in
          (text, present, rw (← same) decoded)
    ]
  ]

  -- Metadata, a newest slot and a pointer to that slot: `open` returns the slot's contents and finds
  -- nothing to repair.
  pub open_session-SlotIn :
      (password dek : Bytes) (meta : VaultMetaV1) (place : SlotId) (container : VaultContainerV1)
      → MetaIn platform (view_of s) password meta dek
      → (slot_in : SlotIn platform (view_of s) meta dek place container)
      → OlderAt platform (view_of s) meta (other place) container.generation
      → decode_stored pointer_json 1024 (view_of s active_slot_key)
        ≡ ok (some (pointer_to slot_in.slot))
      → open_session platform password s
        ≡ ok (record {
          session =
              session_of (record { container = container; dek = dek; persisted_slot = place }) meta;
          repaired_pointer_json = none;
        })
  unfolding open_session usable_pointer validate_pointer
  open_session-SlotIn password dek meta place container m slot_in older pointed =
      let (text, present, decoded) = stored_meta meta m.readable in
      let decides =
        open_vault-open_view platform memory_storage password (load s) (view_of s)
          (Shows-view_of platform s) in
      let decided =
        SlotIn-open_view platform (view_of s) password dek meta place container m slot_in older in
      let pointer = pointer_to slot_in.slot in
      ground (
        arith,
        present,
        decoded,
        decides,
        decided,
        pointed,
        slot_in.in_place,
        ==_iff (some pointer) (some pointer),
      )
