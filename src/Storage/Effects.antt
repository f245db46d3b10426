-- ===== src/Storage/Effects.antt =====
-- crates/vault-core/src/storage.rs: what the JSON reads and writes do to the stored values.
use package.pocket_vault.Base.{
  ℕ, ◌≡◌, ◌≢◌, ◌≤◌, ◌⊎◌, inl, inr, String, len, Option, some, ok, Result-cases, arith, string_eq,
}
use package.pocket_vault.Platform.{Codec}
use package.pocket_vault.Storage.Adapter.{DeviceStorage, StorageLaws}
use package.pocket_vault.Storage.Json.{
  decode_stored, encode_bounded, write_json_verified, read_optional_json, read_required_json,
}

-- The text that stands for a value, within the limit.
pub record TextOf {T : Type 0} (codec : Codec T String) (value : T) (limit : ℕ) (text : String)
    : Type 0 where
  pub encoded : codec.encode value ≡ some text
  pub bounded : len text ≤ limit

module _ {S : Type 0} {store : DeviceStorage S} (laws : StorageLaws store) {T : Type 0}
    (codec : Codec T String) where
  open laws use {peek}

  pub read_optional_json-peek :
      (key : String) (limit : ℕ) (s : S) (j : String)
      → peek (read_optional_json store codec key limit s).1 j ≡ peek s j
  unfolding read_optional_json
  read_optional_json-peek key limit s j = ground (arith, laws.get-peek key s j)

  pub read_optional_json-eq-ok :
      (key : String) (limit : ℕ) (s : S) (v : Option T)
      → (read_optional_json store codec key limit s).0 ≡ ok v
      → decode_stored codec limit (peek s key) ≡ ok v
  unfolding read_optional_json
  read_optional_json-eq-ok key limit s v h = elim (Result-cases (store.get key s).0) [
    | inr (e, failed) ↦ absurd (ground (arith, failed))
    | inl (found, got) ↦ ground (arith, got, laws.get_lem key s found got)
  ]

  pub read_required_json-peek :
      (key : String) (limit : ℕ) (s : S) (j : String)
      → peek (read_required_json store codec key limit s).1 j ≡ peek s j
  unfolding read_required_json
  read_required_json-peek key limit s j = ground (arith, read_optional_json-peek key limit s j)

  pub read_required_json-eq-ok :
      (key : String) (limit : ℕ) (s : S) (v : T)
      → (read_required_json store codec key limit s).0 ≡ ok v
      → decode_stored codec limit (peek s key) ≡ ok (some v)
  unfolding read_required_json
  read_required_json-eq-ok key limit s v h =
      ground (arith, read_optional_json-eq-ok key limit s (some v))

  -- A write reaches no other key.
  pub write_json_verified-peek_ne :
      (key : String) (value : T) (limit : ℕ) (s : S) (j : String)
      → j ≢ key
      → peek (write_json_verified store codec key value limit s).1 j ≡ peek s j
  unfolding write_json_verified
  write_json_verified-peek_ne key value limit s j ne =
      elim (Result-cases (encode_bounded codec value limit)) [
        | inr (e, refused) ↦ ground (arith, refused)
        | inl (text, encoded) ↦
            let s' = (store.set key text s).1 in
            ground (arith, encoded, laws.set-peek_ne key text s j ne, laws.get-peek key s' j)
      ]

  -- Afterwards the key has the value that it had, or the text of the new one.
  pub write_json_verified-peek_self :
      (key : String) (value : T) (limit : ℕ) (s : S)
      → (peek (write_json_verified store codec key value limit s).1 key ≡ peek s key)
        ⊎ ((text : String) × TextOf codec value limit text
            × (peek (write_json_verified store codec key value limit s).1 key ≡ some text))
  unfolding write_json_verified
  write_json_verified-peek_self key value limit s =
      elim (Result-cases (encode_bounded codec value limit)) [
        | inr (e, refused) ↦ inl (ground (arith, refused))
        | inl (text, encoded) ↦
            let s' = (store.set key text s).1 in
            elim (laws.set-peek_failed key text s) [
              | inl kept ↦ inl (ground (arith, encoded, kept, laws.get-peek key s' key))
              | inr written ↦
                  inr
                    (text, ground arith, ground (arith, encoded, written, laws.get-peek key s' key))
            ]
      ]

  -- After a successful write the key has the text of the value.
  pub write_json_verified-eq-ok :
      (key : String) (value : T) (limit : ℕ) (s : S)
      → (write_json_verified store codec key value limit s).0 ≡ ok tt
      → (text : String) × TextOf codec value limit text
        × (peek (write_json_verified store codec key value limit s).1 key ≡ some text)
  unfolding write_json_verified
  write_json_verified-eq-ok key value limit s h =
      elim (Result-cases (encode_bounded codec value limit)) [
        | inr (e, refused) ↦ absurd (ground (arith, refused))
        | inl (text, encoded) ↦
            let s' = (store.set key text s).1 in
            (
              text,
              ground arith,
              ground (arith, encoded, laws.set-peek_self key text s, laws.get-peek key s' key),
            )
      ]
