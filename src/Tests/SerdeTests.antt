-- ===== src/Tests/SerdeTests.antt =====
-- The tests of the serde implementations of crates/vault-core/src/model.rs at concrete values.
use package.pocket_vault.Base.{◌≡◌, refl, none, some}
use package.pocket_vault.Model.{slot_b, ActiveSlotV1}
use package.pocket_vault.Platform.{CodecLaws}
use package.pocket_vault.Serde.Fields.{
  Value, null, number, text, object, Members, no_members, member,
}
use package.pocket_vault.Serde.Stored.{write_pointer, read_pointer}
use package.pocket_vault.Serde.Codecs.{
  JsonText, JsonTextLaws, meta_codec, slot_codec, pointer_codec, container_codec,
  stored_codecs-CodecLaws,
}
use package.pocket_vault.Tests.ToySerde.{toy_serde, toy_serde-SerdeLaws}
use package.pocket_vault.Tests.ToyBase64.{toy_base64, toy_base64-Base64Laws}

-- An engine whose texts are the values themselves.
abbrev values : JsonText Value
values = record { write = some; read = some }

values-JsonTextLaws : JsonTextLaws values
values-JsonTextLaws = record { read-write = λ v t h. cc }

stored_codecs-CodecLaws_example :
    CodecLaws (meta_codec toy_serde toy_base64 values)
    × CodecLaws (slot_codec toy_serde toy_base64 values)
    × CodecLaws (pointer_codec toy_serde toy_base64 values)
    × CodecLaws (container_codec toy_serde toy_base64 values)
stored_codecs-CodecLaws_example =
    stored_codecs-CodecLaws toy_serde toy_base64 values toy_serde-SerdeLaws toy_base64-Base64Laws
      values-JsonTextLaws

abbrev pointer : ActiveSlotV1
pointer = record { version = 1; slot = slot_b; generation = 7 }

reads_pointer : read_pointer toy_serde (write_pointer pointer) ≡ some pointer
unfolding read_pointer write_pointer
reads_pointer = refl

abbrev extended : Members
extended =
    member "version" (number 1)
      (member "slot" (text "b") (member "generation" (number 7) (member "extra" null no_members)))

refuses_extended : read_pointer toy_serde (object extended) ≡ none
unfolding read_pointer
refuses_extended = refl
