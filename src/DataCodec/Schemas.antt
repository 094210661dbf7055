-- ===== src/DataCodec/Schemas.antt =====
-- packages/stellar-sdk/src/utils/dataCodec.ts. `none` stands for an error that is thrown.
use Prim.Native.String.{String}
use text.Mathlib.Text.{starts_with}
use attest_so.Prelude.{
  Bool, true, false, ◌&&◌, ◌||◌, List, map, Option, none, some, ◌or_else◌, includes, ◌&◌,
  if◌then◌else◌, ◌>>=◌,
}
use attest_so.Schema.Types.{SchemaField, SchemaDefinition}
use attest_so.Schema.Encoder.{Codec, new_encoder, to_xdr, from_xdr}

-- What `JSON.parse` makes of a text, as far as it is asked: whether the name, the version and the
-- fields are there, and the value as a definition.
pub record JsonSchema : Type 0 where
  pub has_name : Bool
  pub has_version : Bool
  pub has_fields : Bool
  pub definition : SchemaDefinition

unfoldable pub encode_schema : Codec → SchemaDefinition → Option String
encode_schema codec s = do encoder ← new_encoder codec s; to_xdr codec encoder

-- A definition in JSON, if it is complete.
unfoldable pub complete_json : Option JsonSchema → Option SchemaDefinition
complete_json none = none
complete_json (some p) =
    if p.has_name && (p.has_version && p.has_fields) then some p.definition else none

unfoldable pub decode_schema :
    Codec → (String → Option JsonSchema) → String → Option SchemaDefinition
decode_schema codec parse_json encoded =
    if starts_with encoded "XDR:" || includes encoded "AAAA"
    then from_xdr codec encoded
    else elim (complete_json (parse_json encoded)) [
      | some definition ↦ some definition
      | none ↦ from_xdr codec (if starts_with encoded "XDR:" then encoded else "XDR:" & encoded)
    ]

-- `validateSchema`: true, or an error.
unfoldable pub validate_definition : Codec → SchemaDefinition → Option Bool
validate_definition codec s = do encoder ← new_encoder codec s; some true

pub record SimpleField : Type 0 where
  pub name : String
  pub type : String
  pub optional : Option Bool

abbrev simple_field : SimpleField → SchemaField
simple_field f = record {
  name = f.name;
  type = f.type;
  optional = some (f.optional or_else false);
  description = none;
  validation = none;
}

unfoldable pub create_simple_schema : String → List SimpleField → SchemaDefinition
create_simple_schema name fields = record {
  name = name;
  description = some ("Schema for " & name);
  fields = map simple_field fields;
}
