-- ===== src/DataCodec/Examples.antt =====
-- A definition as text, and the theorems at it.
use Prim.Native.String.{String}
use attest_so.Prelude.{◌≡◌, refl, true, false, [], Option, none, some}
use attest_so.Schema.Types.{SchemaDefinition, validate_schema, validate_parts, validate_fields}
use attest_so.Schema.Encoder.{new_encoder, from_xdr}
use attest_so.Schema.Stored.{stored}
use attest_so.Schema.Examples.{diploma, small_codec, valid, keeps}
use attest_so.DataCodec.Schemas.{
  JsonSchema, encode_schema, complete_json, decode_schema, validate_definition,
  create_simple_schema,
}
use attest_so.DataCodec.RoundTrip.{decode_schema-encode_schema}

abbrev no_json : String → Option JsonSchema
no_json t = none

decode_schema-encode_schema_example :
    (text : String) × (encode_schema small_codec diploma ≡ some text)
    × (decode_schema small_codec no_json text ≡ some (stored small_codec.i128_text diploma))
decode_schema-encode_schema_example =
    decode_schema-encode_schema small_codec no_json diploma keeps refl refl valid ((tt, tt), tt)

-- Text without the prefix is not read, although its base64 is that of a value.
bare_xdr_is_refused : decode_schema small_codec no_json "AAAAEQ==" ≡ none
unfolding decode_schema from_xdr
bare_xdr_is_refused = refl

-- A simple definition has no version, and its JSON is not taken.
abbrev simple : SchemaDefinition
simple = record { name = "badge"; description = some "Schema for badge"; fields = [] }

abbrev as_json : String → Option JsonSchema
as_json t =
    some (record { has_name = true; has_version = false; has_fields = true; definition = simple })

simple_json_is_not_taken :
    (create_simple_schema "badge" [] ≡ simple) × (complete_json (as_json "{}") ≡ none)
unfolding create_simple_schema complete_json
simple_json_is_not_taken = (refl, refl)

-- JSON is returned as it is, also where the encoder would refuse it.
json_is_not_validated :
    (decode_schema small_codec
        (λ t.
          some (record {
            has_name = true;
            has_version = true;
            has_fields = true;
            definition = simple;
          }))
        "{}"
      ≡ some simple)
    × (validate_definition small_codec simple ≡ none)
unfolding decode_schema complete_json validate_definition new_encoder validate_schema validate_parts
    validate_fields
json_is_not_validated = (refl, refl)
