-- ===== src/Platform.antt =====
-- What the program takes from crates that are not part of it: the random source (rand_core), Argon2id
-- (argon2), HKDF-SHA-256 (hkdf, sha2), XChaCha20-Poly1305 (chacha20poly1305) and the JSON of the
-- persistent types (serde, serde_json). The operations are parameters of the model; `PlatformLaws` is
-- what their documentation promises.
use package.pocket_vault.Base.{ℕ, ◌+◌, ◌≡◌, Bool, Bytes, String, Option, some, length}
use package.pocket_vault.Model.{VaultMetaV1, EncryptedVaultSlotV1, ActiveSlotV1, VaultContainerV1}

-- `serde_json::to_string` or `to_vec`, and `from_str` or `from_slice`, at one type.
pub record Codec (A T : Type 0) : Type 0 where
  pub encode : A → Option T
  pub decode : T → Option A

pub record Platform (R : Type 0) : Type 0 where
  -- `TryCryptoRng::try_fill_bytes` on a buffer of so many bytes.
  pub fill : ℕ → R → Option Bytes × R
  -- `argon2::Params::new(memory, iterations, parallelism, Some(output))`
  pub accepts_params : ℕ → ℕ → ℕ → ℕ → Bool
  -- `Argon2::hash_password_into` with those parameters, a password and a salt.
  pub hash_password : ℕ → ℕ → ℕ → ℕ → Bytes → Bytes → Option Bytes
  -- `Hkdf::<Sha256>::new(Some(salt), key)` and `expand(info, _)` to so many bytes.
  pub hkdf_expand : Bytes → Bytes → Bytes → ℕ → Option Bytes
  -- `XChaCha20Poly1305::new_from_slice(key)` succeeds.
  pub accepts_key : Bytes → Bool
  -- `Aead::encrypt` and `Aead::decrypt`: a key, a nonce, the message and the associated data.
  pub seal : Bytes → Bytes → Bytes → Bytes → Option Bytes
  pub unseal : Bytes → Bytes → Bytes → Bytes → Option Bytes
  pub container_json : Codec VaultContainerV1 Bytes
  pub meta_json : Codec VaultMetaV1 String
  pub slot_json : Codec EncryptedVaultSlotV1 String
  pub pointer_json : Codec ActiveSlotV1 String

-- What was written is read back as the same value.
pub record CodecLaws {A T : Type 0} (codec : Codec A T) : Type 0 where
  pub decode-encode : (a : A) (t : T) → codec.encode a ≡ some t → codec.decode t ≡ some a

pub record PlatformLaws {R : Type 0} (platform : Platform R) : Type 0 where
  -- The whole buffer is filled.
  pub length-fill :
      (n : ℕ) (r : R) (bytes : Bytes) → (platform.fill n r).0 ≡ some bytes → length bytes ≡ n
  -- A ciphertext opens under the key, nonce and data that sealed it, and is 16 bytes longer.
  pub unseal-seal :
      (key nonce message aad ciphertext : Bytes)
      → platform.seal key nonce message aad ≡ some ciphertext
      → platform.unseal key nonce ciphertext aad ≡ some message
  pub length-seal :
      (key nonce message aad ciphertext : Bytes)
      → platform.seal key nonce message aad ≡ some ciphertext
      → length ciphertext ≡ length message + 16
  pub container_laws : CodecLaws platform.container_json
  pub meta_laws : CodecLaws platform.meta_json
  pub slot_laws : CodecLaws platform.slot_json
  pub pointer_laws : CodecLaws platform.pointer_json
