-- ===== src/Schema/Examples.antt =====
-- Schemas of packages/stellar-sdk/src/common/schemaEncoder.ts, and the theorem at one of them.
use Prim.Native.String.{String}
use attest_so.Prelude.{◌≡◌, ◌↔◌, refl, sym, ◌∙◌, false, true, [], ◌∷◌, ◌++◌, none, some}
use attest_so.Listing.Params.{natural, not_a_number, parse_int}
use attest_so.Schema.Decode.{no_validation, parse_validation}
use attest_so.Schema.Types.{
  FieldValidation, map_entry, map_end, SchemaDefinition, validate_fields, validate_parts,
  validate_schema, is_valid_stellar_type, ScVal, scv_string, scv_bool, scv_i128, scv_vec, scv_map,
  to_vec, to_map,
}
use attest_so.Schema.Xdr.{
  schema_to_xdr, fields_to_xdr, field_to_xdr, text_entry, validation_entry, validation_to_xdr,
  i128_entry, enum_entry,
}
use attest_so.Schema.Encoder.{Codec, to_xdr, from_xdr}
use attest_so.Schema.Validity.{IsValid, validate_schema-IsValid}
use attest_so.Schema.Stored.{stored}
use attest_so.Schema.RoundTrip.{Keeps, from_xdr-to_xdr}

abbrev pub diploma : SchemaDefinition
diploma = record {
  name = "diploma";
  description = none;
  fields =
      (record {
        name = "grade";
        type = "u32";
        optional = none;
        description = some "";
        validation =
            some (record { min = none; max = none; pattern = none; enum = some ("a" ∷ "" ∷ []) });
      })
      ∷ [];
}

abbrev pub diploma_value : ScVal
diploma_value = scv_map (
    to_map (
      ("name", scv_string "diploma")
      ∷ ("description", scv_string "diploma")
      ∷ (
        "fields",
        scv_vec (
            to_vec (
              scv_map (
                to_map (
                  ("name", scv_string "grade")
                  ∷ ("type", scv_string "u32")
                  ∷ ("optional", scv_bool false)
                  ∷ (
                    "validation",
                    scv_map (
                        to_map
                          (("enum", scv_vec (to_vec (scv_string "a" ∷ scv_string "" ∷ []))) ∷ [])),
                  )
                  ∷ []))
              ∷ [])),
      )
      ∷ []))

-- A library that knows the one value.
abbrev pub small_codec : Codec
small_codec = record {
  to_base64 = λ v. some "AAAAEQ==";
  from_base64 = λ t. some diploma_value;
  i128_text = λ hi lo. "[object Object]";
  compiles = λ s. true;
}

pub written : schema_to_xdr diploma ≡ some diploma_value
unfolding schema_to_xdr fields_to_xdr field_to_xdr text_entry validation_entry validation_to_xdr
    i128_entry enum_entry
written = refl

pub valid : validate_schema diploma ≡ none
unfolding validate_schema validate_parts validate_fields is_valid_stellar_type
valid = refl

text_of_diploma : to_xdr small_codec diploma ≡ some "XDR:AAAAEQ=="
unfolding to_xdr schema_to_xdr fields_to_xdr field_to_xdr text_entry validation_entry
    validation_to_xdr i128_entry enum_entry
text_of_diploma = refl

pub keeps : (v : ScVal) → schema_to_xdr diploma ≡ some v → Keeps small_codec v
keeps v h = ("AAAAEQ==", refl, sym written ∙ h)

from_xdr-to_xdr_example :
    (text : String) × (to_xdr small_codec diploma ≡ some text)
    × (from_xdr small_codec text ≡ some (stored small_codec.i128_text diploma))
from_xdr-to_xdr_example = from_xdr-to_xdr small_codec diploma keeps refl valid ((tt, tt), tt)

-- A limit is written, and read as NaN where the text of the 128-bit value is no number.
abbrev limited : FieldValidation
limited = record { min = some (natural 1); max = none; pattern = none; enum = none }

a_limit_is_lost :
    (validation_to_xdr limited ≡ some (scv_map (map_entry "min" (scv_i128 0 1) map_end)))
    × (parse_validation small_codec.i128_text (map_entry "min" (scv_i128 0 1) map_end) no_validation
        ≡ record limited { min = some not_a_number })
unfolding validation_to_xdr i128_entry text_entry enum_entry parse_validation parse_int
a_limit_is_lost = (refl, refl)

twice_named :
    validate_schema (record diploma { fields = diploma.fields ++ diploma.fields })
    ≡ some "Duplicate field name: grade"
unfolding validate_schema validate_parts validate_fields is_valid_stellar_type
twice_named = refl

validate_schema-IsValid_example : (validate_schema diploma ≡ none) ↔ IsValid diploma
validate_schema-IsValid_example = validate_schema-IsValid diploma
