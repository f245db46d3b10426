-- ===== src/Serde/Codecs.antt =====
-- The codecs of crates/vault-core: serde_json over the serde implementations of the stored types.
use package.pocket_vault.Base.{
  Bool, true, ◌≡◌, Bytes, String, Option, none, some, Bool-cases, inl, inr, arith, if◌then◌else◌,
}
use package.pocket_vault.Model.{VaultMetaV1, EncryptedVaultSlotV1, ActiveSlotV1, VaultContainerV1}
use package.pocket_vault.Platform.{Codec, CodecLaws, Platform, PlatformLaws}
use package.pocket_vault.Encoding.{Base64, Base64Laws}
use package.pocket_vault.Serde.Fields.{Value, Serde, SerdeLaws, ◌>>=◌}
use package.pocket_vault.Serde.Stored.{
  write_meta, read_meta, write_slot, read_slot, write_pointer, read_pointer,
}
use package.pocket_vault.Serde.Contents.{write_container, read_container}
use package.pocket_vault.Serde.RoundTrip.{
  meta_fits, slot_fits, pointer_fits, read-write_meta, read-write_slot, read-write_pointer,
}
use package.pocket_vault.Serde.ContentsRoundTrip.{container_fits, read-write_container}

-- serde_json's writer and parser between values and texts or bytes, as documented: what was written
-- is read back.
pub record JsonText (T : Type 0) : Type 0 where
  pub write : Value → Option T
  pub read : T → Option Value

pub record JsonTextLaws {T : Type 0} (json : JsonText T) : Type 0 where
  pub read-write : (v : Value) (t : T) → json.write v ≡ some t → json.read t ≡ some v

-- `to_string` and `from_str`, or `to_vec` and `from_slice`, at one type. A value whose numbers or
-- bytes its type does not hold is none of the source's, and has no text.
abbrev pub codec_of :
    {A T : Type 0} → JsonText T → (A → Bool) → (A → Value) → (Value → Option A) → Codec A T
codec_of json fits to_value from_value = record {
  encode = λ a. if fits a then json.write (to_value a) else none;
  decode = λ t. json.read t >>= from_value;
}

pub codec_of-CodecLaws :
    {A T : Type 0} (json : JsonText T) (fits : A → Bool) (to_value : A → Value)
    (from_value : Value → Option A)
    → JsonTextLaws json
    → ((a : A) → fits a ≡ true → from_value (to_value a) ≡ some a)
    → CodecLaws (codec_of json fits to_value from_value)
codec_of-CodecLaws json fits to_value from_value laws back = record {
  decode-encode = λ a t h. elim (Bool-cases (fits a)) [
    | inr not_held ↦ absurd (ground (arith, not_held))
    | inl held ↦
        let parsed = laws.read-write (to_value a) t (ground (arith, held)) in
        ground (arith, parsed, back a held)
  ];
}

module _ (serde : Serde) (base64 : Base64) {T : Type 0} (json : JsonText T) where
  abbrev pub meta_codec : Codec VaultMetaV1 T
  meta_codec = codec_of json meta_fits (write_meta base64) (read_meta serde base64)

  abbrev pub slot_codec : Codec EncryptedVaultSlotV1 T
  slot_codec = codec_of json slot_fits (write_slot base64) (read_slot serde base64)

  abbrev pub pointer_codec : Codec ActiveSlotV1 T
  pointer_codec = codec_of json pointer_fits write_pointer (read_pointer serde)

  abbrev pub container_codec : Codec VaultContainerV1 T
  container_codec =
      codec_of json container_fits (write_container base64) (read_container serde base64)

  -- At each stored type, a text that was written of a value is read back as that value, where serde,
  -- the base64 engine and the JSON engine keep their promises.
  pub stored_codecs-CodecLaws :
      SerdeLaws serde
      → Base64Laws base64
      → JsonTextLaws json
      → CodecLaws meta_codec
        × CodecLaws slot_codec
        × CodecLaws pointer_codec
        × CodecLaws container_codec
  stored_codecs-CodecLaws derived laws json_laws = (
    codec_of-CodecLaws json meta_fits (write_meta base64) (read_meta serde base64) json_laws
        (read-write_meta serde derived base64 laws),
    codec_of-CodecLaws json slot_fits (write_slot base64) (read_slot serde base64) json_laws
        (read-write_slot serde derived base64 laws),
    codec_of-CodecLaws json pointer_fits write_pointer (read_pointer serde) json_laws
        (read-write_pointer serde derived),
    codec_of-CodecLaws json container_fits (write_container base64) (read_container serde base64)
        json_laws (read-write_container serde derived base64 laws),
  )

module _ {R : Type 0} (serde : Serde) (base64 : Base64) (strings : JsonText String)
    (bytes : JsonText Bytes) where
  -- A platform with the serde implementations for its codecs.
  abbrev pub with_serde : Platform R → Platform R
  with_serde platform = record platform {
    container_json = container_codec serde base64 bytes;
    meta_json = meta_codec serde base64 strings;
    slot_json = slot_codec serde base64 strings;
    pointer_json = pointer_codec serde base64 strings;
  }

  -- It keeps the promises that the other parts assume.
  with_serde-PlatformLaws :
      (platform : Platform R)
      → SerdeLaws serde
      → Base64Laws base64
      → JsonTextLaws strings
      → JsonTextLaws bytes
      → PlatformLaws platform
      → PlatformLaws (with_serde platform)
  with_serde-PlatformLaws platform derived laws of_strings of_bytes promises =
      let (metas, slots, pointers, _) =
        stored_codecs-CodecLaws serde base64 strings derived laws of_strings in
      let (_, _, _, containers) =
        stored_codecs-CodecLaws serde base64 bytes derived laws of_bytes in
      record {
        length-fill = promises.length-fill;
        unseal-seal = promises.unseal-seal;
        length-seal = promises.length-seal;
        container_laws = containers;
        meta_laws = metas;
        slot_laws = slots;
        pointer_laws = pointers;
      }
