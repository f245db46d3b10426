-- ===== src/Storage/Clear.antt =====
-- crates/vault-core/src/storage.rs: `clear_device_storage`.
use package.pocket_vault.Base.{
  ◌≡◌, ◌≢◌, ◌⊎◌, inl, inr, refl, ◌∙◌, String, List, [], ◌∷◌, none, ok, not, guard, arith, Elem,
  ◌==◌, ==_iff, string_eq, Bool-cases,
}
use package.pocket_vault.Base.Exec.{>>=-eq-ok, lift, map_err}
use package.pocket_vault.Error.{storage, slot_verification_failed}
use package.pocket_vault.Storage.Adapter.{
  DeviceStorage, StorageLaws, meta_key, slot_a_key, slot_b_key, active_slot_key,
}
use package.pocket_vault.Storage.Repository.{is_some, clear_keys, clear_device_storage}

module _ {S : Type 0} {store : DeviceStorage S} (laws : StorageLaws store) where
  open laws use {peek}

  -- A key that is empty stays so, and every key of the list is emptied.
  clear_keys-empty :
      (keys : List String) (j : String) (s s' : S)
      → clear_keys store keys s ≡ (ok tt, s')
      → (peek s j ≡ none) ⊎ Elem j keys
      → peek s' j ≡ none
  unfolding clear_keys
  clear_keys-empty [] j s s' h (inl gone) = ground (arith, h, gone)
  clear_keys-empty [] j s s' h (inr e) = absurd e
  clear_keys-empty (key ∷ keys) j s s' h at =
      let (_, s1, removed, h1) = >>=-eq-ok (map_err storage (store.remove key)) _ s h in
      let (left, s2, read, h2) = >>=-eq-ok (map_err storage (store.get key)) _ s1 h1 in
      let (_, s3, absent, h3) =
        >>=-eq-ok (lift (guard (not (is_some left)) slot_verification_failed)) _ s2 h2 in
      let self = laws.remove-peek_self key s (ground (arith, removed)) in
      let kept : peek s3 j ≡ peek s1 j = ground (arith, absent, read, laws.get-peek key s1 j) in
      elim (Bool-cases (j == key)) [
        | inl same ↦
            clear_keys-empty keys j s3 s' h3
              (inl (kept ∙ ground (arith, (==_iff j key).0 same, self, removed)))
        | inr differs ↦
            let ne : j ≢ key = λ e. cc ((==_iff j key).1 e) in
            let by_key = laws.remove-peek_ne key s j ne in
            elim at [
              | inl gone ↦
                  clear_keys-empty keys j s3 s' h3
                    (inl (kept ∙ ground (arith, by_key, removed, gone)))
              | inr (inl here) ↦ absurd (ne here)
              | inr (inr there) ↦ clear_keys-empty keys j s3 s' h3 (inr there)
            ]
      ]

  -- After a successful clearing none of the vault's four keys has a value.
  pub clear_device_storage-empty :
      (s s' : S)
      → clear_device_storage store s ≡ (ok tt, s')
      → (peek s' meta_key ≡ none)
        × (peek s' slot_a_key ≡ none)
        × (peek s' slot_b_key ≡ none)
        × (peek s' active_slot_key ≡ none)
  unfolding clear_device_storage
  clear_device_storage-empty s s' h =
      let keys = meta_key ∷ slot_a_key ∷ slot_b_key ∷ active_slot_key ∷ [] in
      (
        clear_keys-empty keys meta_key s s' h (inr (inl refl)),
        clear_keys-empty keys slot_a_key s s' h (inr (inr (inl refl))),
        clear_keys-empty keys slot_b_key s s' h (inr (inr (inr (inl refl)))),
        clear_keys-empty keys active_slot_key s s' h (inr (inr (inr (inr (inl refl))))),
      )
