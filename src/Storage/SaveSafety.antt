-- ===== src/Storage/SaveSafety.antt =====
-- crates/vault-core/src/storage.rs: what the storage calls of `save` may have done to the stored
-- values, on every outcome.
use package.pocket_vault.Base.{
  ℕ, ◌≡◌, ◌≢◌, ◌⊎◌, inl, inr, sym, String, some, ok, Result-cases, arith, ==_iff, string_eq,
}
use package.pocket_vault.Base.Exec.{lift, >>=-eq-ok}
use package.pocket_vault.Model.{
  SlotId, slot_a, slot_b, other, EncryptedVaultSlotV1, ActiveSlotV1, validate_slot,
}
use package.pocket_vault.Platform.{Platform}
use package.pocket_vault.Vault.{UnlockedVault, verify_next_slot}
use package.pocket_vault.Storage.Adapter.{
  DeviceStorage, StorageLaws, slot_key, slot_a_key, slot_b_key, meta_key, active_slot_key,
}
use package.pocket_vault.Storage.Json.{decode_stored, write_json_verified, read_required_json}
use package.pocket_vault.Storage.Effects.{
  TextOf, read_required_json-peek, read_required_json-eq-ok, write_json_verified-peek_ne,
  write_json_verified-peek_self, write_json_verified-eq-ok,
}
use package.pocket_vault.Storage.Repository.{persist}

abbrev pub next_pointer : SlotId → ℕ → ActiveSlotV1
next_pointer target next = record { version = 1; slot = target; generation = next }

pub active_slot_key-ne-slot_key : (slot : SlotId) → active_slot_key ≢ slot_key slot
active_slot_key-ne-slot_key slot_a e = cc ((==_iff active_slot_key "vault_slot_a_v1").1 e)
active_slot_key-ne-slot_key slot_b e = cc ((==_iff active_slot_key "vault_slot_b_v1").1 e)

pub meta_key-ne-slot_key : (slot : SlotId) → meta_key ≢ slot_key slot
meta_key-ne-slot_key slot_a e = cc ((==_iff meta_key "vault_slot_a_v1").1 e)
meta_key-ne-slot_key slot_b e = cc ((==_iff meta_key "vault_slot_b_v1").1 e)

pub meta_key-ne-active_slot_key : meta_key ≢ active_slot_key
meta_key-ne-active_slot_key e = cc ((==_iff meta_key active_slot_key).1 e)

pub slot_key-ne-other : (slot : SlotId) → slot_key slot ≢ slot_key (other slot)
unfolding other
slot_key-ne-other slot_a e = cc ((==_iff slot_a_key slot_b_key).1 e)
slot_key-ne-other slot_b e = cc ((==_iff slot_b_key slot_a_key).1 e)

module _ {R S : Type 0} (platform : Platform R) {store : DeviceStorage S}
    (laws : StorageLaws store) where
  open laws use {peek}
  open platform use {slot_json, pointer_json}

  pub persist-peek_ne :
      (vault : UnlockedVault) (target : SlotId) (next : ℕ) (slot : EncryptedVaultSlotV1) (s : S)
      (j : String)
      → j ≢ slot_key target
      → j ≢ active_slot_key
      → peek (persist platform store vault target next slot s).1 j ≡ peek s j
  unfolding persist
  persist-peek_ne vault target next slot s j ne ne' =
      let s1 = (write_json_verified store slot_json (slot_key target) slot 5242880 s).1 in
      let s2 = (read_required_json store slot_json (slot_key target) 5242880 s1).1 in
      ground (
        arith,
        write_json_verified-peek_ne laws slot_json (slot_key target) slot 5242880 s j ne,
        read_required_json-peek laws slot_json (slot_key target) 5242880 s1 j,
        write_json_verified-peek_ne laws pointer_json active_slot_key (next_pointer target next)
            1024 s2 j ne',
      )

  -- Under the target's key stands a slot that the session verifies, and the stored pointer names it.
  pub record Published (vault : UnlockedVault) (target : SlotId) (next : ℕ) (s : S) : Type 0 where
    pub stored : EncryptedVaultSlotV1
    pub pointer_text : String
    pub readable : decode_stored slot_json 5242880 (peek s (slot_key target)) ≡ ok (some stored)
    pub verified : verify_next_slot platform vault stored ≡ ok tt
    pub is_pointer : TextOf pointer_json (next_pointer target next) 1024 pointer_text
    pub pointed : peek s active_slot_key ≡ some pointer_text

  pub persist-Published :
      (vault : UnlockedVault) (target : SlotId) (next : ℕ) (slot : EncryptedVaultSlotV1) (s : S)
      → (peek (persist platform store vault target next slot s).1 active_slot_key
          ≡ peek s active_slot_key)
        ⊎ Published vault target next (persist platform store vault target next slot s).1
  unfolding persist
  persist-Published vault target next slot s =
      let key = slot_key target in
      let w1 = write_json_verified store slot_json key slot 5242880 s in
      let r = read_required_json store slot_json key 5242880 w1.1 in
      let pointer = next_pointer target next in
      let w2 = write_json_verified store pointer_json active_slot_key pointer 1024 r.1 in
      let kept1 =
        write_json_verified-peek_ne laws slot_json key slot 5242880 s active_slot_key
          (active_slot_key-ne-slot_key target) in
      let kept2 = read_required_json-peek laws slot_json key 5242880 w1.1 active_slot_key in
      let slot_kept = read_required_json-peek laws slot_json key 5242880 w1.1 key in
      let slot_kept2 =
        write_json_verified-peek_ne laws pointer_json active_slot_key pointer 1024 r.1 key
          (λ e. active_slot_key-ne-slot_key target (sym e)) in
      elim (Result-cases w1.0) [
        | inr (e, failed) ↦ inl (ground (arith, failed, kept1))
        | inl (a, wrote) ↦ elim (Result-cases r.0) [
          | inr (e, failed) ↦ inl (ground (arith, wrote, failed, kept1, kept2))
          | inl (stored, got) ↦
              elim (Result-cases (validate_slot stored vault.container.vault_id)) [
                | inr (e, failed) ↦ inl (ground (arith, wrote, got, failed, kept1, kept2))
                | inl (b, valid) ↦ elim (Result-cases (verify_next_slot platform vault stored)) [
                  | inr (e, failed) ↦ inl (ground (arith, wrote, got, valid, failed, kept1, kept2))
                  | inl (c, verified) ↦
                      elim (write_json_verified-peek_self laws pointer_json active_slot_key pointer
                        1024 r.1) [
                          | inl same ↦
                              inl (ground (arith, wrote, got, valid, verified, same, kept1, kept2))
                          | inr (text, is_text, written) ↦ inr (record {
                            stored = stored;
                            pointer_text = text;
                            readable = ground (
                              arith,
                              wrote,
                              got,
                              valid,
                              verified,
                              slot_kept,
                              slot_kept2,
                              read_required_json-eq-ok laws slot_json key 5242880 w1.1 stored got,
                            );
                            verified = verified;
                            is_pointer = is_text;
                            pointed = ground (arith, wrote, got, valid, verified, written);
                          })
                        ]
                ]
              ]
        ]
      ]

  pub persist-eq-ok :
      (vault : UnlockedVault) (target : SlotId) (next : ℕ) (slot stored : EncryptedVaultSlotV1)
      (s s' : S)
      → persist platform store vault target next slot s ≡ (ok stored, s')
      → (p : Published vault target next s') × (p.stored ≡ stored)
  unfolding persist
  persist-eq-ok vault target next slot stored s s' h =
      let key = slot_key target in
      let pointer = next_pointer target next in
      let (_, s1, wrote, h1) =
        >>=-eq-ok (write_json_verified store slot_json key slot 5242880) _ s h in
      let (found, s2, got, h2) =
        >>=-eq-ok (read_required_json store slot_json key 5242880) _ s1 h1 in
      let (_, s3, valid, h3) =
        >>=-eq-ok (lift (validate_slot found vault.container.vault_id)) _ s2 h2 in
      let (_, s4, verified, h4) =
        >>=-eq-ok (lift (verify_next_slot platform vault found)) _ s3 h3 in
      let (_, s5, pointed, h5) =
        >>=-eq-ok (write_json_verified store pointer_json active_slot_key pointer 1024) _ s4 h4 in
      let w =
        write_json_verified-eq-ok laws pointer_json active_slot_key pointer 1024 s4
          (ground (arith, pointed)) in
      let same : s2 ≡ s4 = ground (arith, valid, verified) in
      let end : s5 ≡ s' = ground (arith, h5) in
      let is_found : found ≡ stored = ground (arith, h5) in
      (
        record {
          stored = found;
          pointer_text = w.0;
          readable = ground (
            arith,
            got,
            pointed,
            same,
            end,
            read_required_json-eq-ok laws slot_json key 5242880 s1 found,
            read_required_json-peek laws slot_json key 5242880 s1 key,
            write_json_verified-peek_ne laws pointer_json active_slot_key pointer 1024 s4 key
                (λ e. active_slot_key-ne-slot_key target (sym e)),
          );
          verified = ground (arith, verified);
          is_pointer = w.1;
          pointed = ground (arith, pointed, end, w.2);
        },
        is_found,
      )
