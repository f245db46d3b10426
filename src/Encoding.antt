-- ===== src/Encoding.antt =====
-- crates/vault-core/src/encoding.rs and the identifiers' texts in crates/vault-core/src/model.rs. The
-- base64 crate's engine is a parameter.
pub mod RoundTrip
use Prim.Native.Char.{code}
use package.pocket_vault.Base.{
  ℕ, ◌<◌, ◌≡◌, Bool, true, false, not, ◌||◌, ◌==◌, nat_eq, Bytes, String, Option, some, length, All,
  Result, ok, err, ok_or, guard, ◌>>=◌, ◌>>◌,
}
use package.pocket_vault.Model.{VaultId, EntryId}

-- `URL_SAFE_NO_PAD.encode` and `URL_SAFE_NO_PAD.decode`
pub record Base64 : Type 0 where
  pub encode : Bytes → String
  pub decode : String → Option Bytes

-- `value.contains('=')`
unfoldable pub has_padding : String → Bool
has_padding String.[] = false
has_padding (String.◌∷◌ c s) = code c == b'=' || has_padding s

-- What the engine's documentation promises: bytes are read back, and no padding is written.
pub record Base64Laws (base64 : Base64) : Type 0 where
  pub decode-encode :
      (bytes : Bytes) → All (λ b. b < 256) bytes → base64.decode (base64.encode bytes) ≡ some bytes
  pub has_padding-encode : (bytes : Bytes) → has_padding (base64.encode bytes) ≡ false

-- The error texts: "base64url padding is not allowed", "invalid base64url value" and "expected
-- exactly {N} decoded bytes".
pub data EncodingError : Type 0 where
  padding_not_allowed invalid_value : EncodingError
  expected_exactly : ℕ → EncodingError

module _ (base64 : Base64) where
  -- `encode_base64url`
  unfoldable pub encode_base64url : Bytes → String
  encode_base64url bytes = base64.encode bytes

  -- `decode_base64url`
  unfoldable pub decode_base64url : String → Result EncodingError Bytes
  decode_base64url value =
      guard (not (has_padding value)) padding_not_allowed
      >> ok_or (base64.decode value) invalid_value

  -- `decode_base64url_array`
  unfoldable pub decode_base64url_array : ℕ → String → Result EncodingError Bytes
  decode_base64url_array n value = do
    bytes ← decode_base64url value
    guard (length bytes == n) (expected_exactly n)
    ok bytes

  -- `to_base64url` and `from_base64url` of `VaultId`
  unfoldable pub vault_id_to_base64url : VaultId → String
  vault_id_to_base64url id = encode_base64url id.bytes

  unfoldable pub vault_id_from_base64url : String → Result EncodingError VaultId
  vault_id_from_base64url value = do
    bytes ← decode_base64url_array 16 value
    ok (record { bytes = bytes })

  -- `to_base64url` and `from_base64url` of `EntryId`
  unfoldable pub entry_id_to_base64url : EntryId → String
  entry_id_to_base64url id = encode_base64url id.bytes

  unfoldable pub entry_id_from_base64url : String → Result EncodingError EntryId
  entry_id_from_base64url value = do
    bytes ← decode_base64url_array 16 value
    ok (record { bytes = bytes })
