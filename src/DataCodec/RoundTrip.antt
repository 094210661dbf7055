-- ===== src/DataCodec/RoundTrip.antt =====
-- What `decodeSchema` makes of texts.
use Prim.Native.String.{String}
use text.Mathlib.Text.{starts_with}
use attest_so.Prelude.{All, ◌≡◌, refl, inl, inr, true, Option, none, some, Bool-cases}
use attest_so.Schema.Types.{SchemaField, SchemaDefinition, validate_schema, ScVal}
use attest_so.Schema.Xdr.{schema_to_xdr}
use attest_so.Schema.Encoder.{Codec, new_encoder, from_xdr}
use attest_so.Schema.Totality.{HasU64Limits}
use attest_so.Schema.Stored.{stored}
use attest_so.Schema.RoundTrip.{Keeps, from_xdr-to_xdr}
use attest_so.DataCodec.Schemas.{JsonSchema, encode_schema, decode_schema}

from_xdr-prefixed :
    (codec : Codec) (text : String) (s : SchemaDefinition)
    → from_xdr codec text ≡ some s
    → starts_with text "XDR:" ≡ true
unfolding from_xdr
from_xdr-prefixed codec text s h = elim (Bool-cases (starts_with text "XDR:")) [
  | inl prefixed ↦ prefixed
  | inr other ↦ absurd (cc (rw (other, from_xdr) at h))
]

-- A text that `fromXDR` reads is taken for XDR.
decode_schema-from_xdr :
    (codec : Codec) (parse_json : String → Option JsonSchema) (text : String) (s : SchemaDefinition)
    → from_xdr codec text ≡ some s
    → decode_schema codec parse_json text ≡ some s
unfolding decode_schema
decode_schema-from_xdr codec parse_json text s h =
    rw (from_xdr-prefixed codec text s h, decode_schema) h

new_encoder-valid :
    (codec : Codec) (s : SchemaDefinition)
    → codec.compiles s ≡ true
    → validate_schema s ≡ none
    → new_encoder codec s ≡ some s
unfolding new_encoder
new_encoder-valid codec s compiled valid = rw (valid, new_encoder, compiled) refl

-- `decodeSchema` gives a definition back as it is stored, whatever else JSON would make of the text: a
-- limit becomes what parseInt makes of the text of the 128-bit value. The definition is valid, and its
-- limits, if any, are natural numbers of 64 bits. It is given that the XDR library writes the value
-- made of the definition and reads it back, and that Ajv compiles the definition and its stored form.
pub decode_schema-encode_schema :
    (codec : Codec) (parse_json : String → Option JsonSchema) (s : SchemaDefinition)
    → ((v : ScVal) → schema_to_xdr s ≡ some v → Keeps codec v)
    → codec.compiles s ≡ true
    → codec.compiles (stored codec.i128_text s) ≡ true
    → validate_schema s ≡ none
    → All (λ f. HasU64Limits (SchemaField.validation f)) s.fields
    → (text : String) × (encode_schema codec s ≡ some text)
      × (decode_schema codec parse_json text ≡ some (stored codec.i128_text s))
unfolding encode_schema
decode_schema-encode_schema codec parse_json s reads compiled compiled' valid small =
    let (text, written, back) = from_xdr-to_xdr codec s reads compiled' valid small in
    (
      text,
      rw (new_encoder-valid codec s compiled valid) written,
      decode_schema-from_xdr codec parse_json text _ back,
    )
