-- ===== src/Wasm/Reopen.antt =====
-- crates/vault-wasm/src/wasm.rs: opening, over the boundary, what a created bundle gave to be stored.
use package.pocket_vault.Base.{
  ℕ, ◌≤◌, ◌≡◌, refl, String, len, none, some, ok, as_bytes, arith, Result-cases, inl, inr,
}
use package.pocket_vault.Platform.{Platform, PlatformLaws}
use package.pocket_vault.Bridge.{CreateBundle, create}
use package.pocket_vault.Bridge.Reopen.{create-open_session}
use package.pocket_vault.Wasm.Timestamp.{F64, parse_timestamp}
use package.pocket_vault.Wasm.Bundles.{
  WasmCreateBundle, WasmOpenBundle, new_create_bundle, metadata_json, created_slot_json,
  created_pointer_json, take_created_session, repaired_pointer_json, take_opened_session,
}
use package.pocket_vault.Wasm.Session.{create_session, open_stored}

module _ {R : Type 0} (platform : Platform R) where
  -- A finished `create` was given a valid time, and holds a bundle of the bridge.
  create_session-create :
      (password : String) (now : F64) (rng rng' : R) (bundle : WasmCreateBundle)
      → create_session platform password now rng ≡ (ok bundle, rng')
      → (time : ℕ) × (inner : CreateBundle) × (create platform (as_bytes password) time rng
          ≡ (ok inner, rng'))
        × (bundle ≡ new_create_bundle inner)
  unfolding create_session
  create_session-create password now rng rng' bundle h = elim (Result-cases (parse_timestamp now)) [
    | inr (e, refused) ↦ absurd (ground (arith, refused))
    | inl (time, accepted) ↦ elim (Result-cases (create platform (as_bytes password) time rng).0) [
      | inr (e, failed) ↦ absurd (ground (arith, accepted, failed))
      | inl (inner, made) ↦
          (time, inner, ground (arith, accepted, made), ground (arith, accepted, made))
    ]
  ]

  -- A finished `create` gives texts, which are stored where they are within the limits. Then `open`
  -- with the same password finishes, reports no repaired pointer, and gives the session that the
  -- created bundle gives.
  pub create_session-open_stored :
      (promises : PlatformLaws platform) (password : String) (now : F64) (rng rng' : R)
      (bundle : WasmCreateBundle) (meta slot pointer : String)
      → create_session platform password now rng ≡ (ok bundle, rng')
      → metadata_json bundle ≡ ok meta
      → created_slot_json bundle ≡ ok slot
      → created_pointer_json bundle ≡ ok pointer
      → len meta ≤ 16384
      → len slot ≤ 5242880
      → len pointer ≤ 1024
      → (opened : WasmOpenBundle) × (open_stored platform password
            (some meta)
            (some slot)
            none
            (some pointer)
          ≡ ok opened)
        × (repaired_pointer_json opened ≡ none)
        × (take_opened_session opened ≡ take_created_session bundle)
  unfolding open_stored metadata_json created_slot_json created_pointer_json take_created_session
      take_opened_session repaired_pointer_json
  create_session-open_stored promises password now rng rng' bundle meta slot pointer h is_meta
        is_slot is_pointer fits_meta fits_slot fits_pointer =
      let (time, inner, made, wrapped) = create_session-create password now rng rng' bundle h in
      let of_meta : inner.metadata_json ≡ meta = ground (arith, wrapped, is_meta) in
      let of_slot : inner.slot_json ≡ slot = ground (arith, wrapped, is_slot) in
      let of_pointer : inner.active_pointer_json ≡ pointer = ground (arith, wrapped, is_pointer) in
      let opens =
        create-open_session platform promises (as_bytes password) time rng rng' inner made
          (rw of_meta fits_meta) (rw of_slot fits_slot) (rw of_pointer fits_pointer) in
      (
        record { inner = some (record { session = inner.session; repaired_pointer_json = none }) },
        ground (arith, opens, of_meta, of_slot, of_pointer),
        refl,
        ground (arith, wrapped),
      )
