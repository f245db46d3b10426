-- ===== src/Tests/CryptoTests.antt =====
-- The tests of crates/vault-core/src/crypto.rs at concrete values.
use package.pocket_vault.Base.{length, ℕ, ◌≡◌, refl, Bytes, [], ◌∷◌, ok, arith}
use package.pocket_vault.Model.{slot_b, EncryptedVaultSlotV1, WrappedDekV1}
use package.pocket_vault.Crypto.{
  encrypt, wrap_dek, unwrap_dek, encrypt_slot_payload, decrypt_slot_payload, random_array,
}
use package.pocket_vault.Crypto.Binding.{vault_slot_aad-injective}
use package.pocket_vault.Crypto.RoundTrip.{
  EnvelopeOf, encrypt-decrypt_slot_payload, wrap-unwrap_dek,
}
use package.pocket_vault.Tests.Toy.{toy, toy-PlatformLaws, replicate}
use package.pocket_vault.Tests.Scene.{vault_id, value_or, no_slot, no_meta}

abbrev seven : ℕ
seven = 7

vault_slot_aad-injective_example : (vault_id ≡ vault_id) × (slot_b ≡ slot_b) × (seven ≡ seven)
vault_slot_aad-injective_example =
    vault_slot_aad-injective vault_id vault_id slot_b slot_b seven seven refl refl (omega arith)
      (omega arith) refl

abbrev dek : Bytes
dek = replicate 32 9

abbrev kek : Bytes
kek = replicate 32 3

unfoldable payload_slot : EncryptedVaultSlotV1
unfolding encrypt_slot_payload random_array encrypt
payload_slot =
    value_or (encrypt_slot_payload toy dek vault_id slot_b 7 (1 ∷ 2 ∷ 3 ∷ []) 0).0 no_slot

payload_slot_runs :
    encrypt_slot_payload toy dek vault_id slot_b 7 (1 ∷ 2 ∷ 3 ∷ []) 0 ≡ (ok payload_slot, 1)
unfolding payload_slot
payload_slot_runs = refl

encrypt-decrypt_slot_payload_example :
    (decrypt_slot_payload toy dek payload_slot ≡ ok (1 ∷ 2 ∷ 3 ∷ []))
    × EnvelopeOf payload_slot vault_id slot_b 7 (1 ∷ 2 ∷ 3 ∷ [])
encrypt-decrypt_slot_payload_example =
    encrypt-decrypt_slot_payload toy toy-PlatformLaws dek vault_id slot_b 7 (1 ∷ 2 ∷ 3 ∷ []) 0 1
      payload_slot payload_slot_runs

unfoldable wrapped : WrappedDekV1
unfolding wrap_dek random_array encrypt
wrapped = value_or (wrap_dek toy kek dek vault_id 0).0 no_meta.wrapped_dek

wrapped_runs : wrap_dek toy kek dek vault_id 0 ≡ (ok wrapped, 1)
unfolding wrapped
wrapped_runs = refl

wrap-unwrap_dek_example :
    (unwrap_dek toy kek wrapped vault_id ≡ ok dek)
    × (length wrapped.nonce.as_slice ≡ 24)
    × (length wrapped.ciphertext.as_slice ≡ 48)
wrap-unwrap_dek_example =
    wrap-unwrap_dek toy toy-PlatformLaws kek dek vault_id 0 1 wrapped refl wrapped_runs
