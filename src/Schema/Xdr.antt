-- ===== src/Schema/Xdr.antt =====
-- packages/stellar-sdk/src/common/schemaEncoder.ts: how `toXDR` builds the XDR value of
-- a schema. `none` stands for an error that is thrown.
use Prim.Native.String.{String}
use attest_so.Prelude.{
  ◌^◌, false, List, [], ◌∷◌, ◌++◌, map, Option, none, some, ltb, truthy, text_or, ◌or_else◌,
  if◌then◌else◌, ◌>>=◌,
}
use attest_so.Listing.Params.{Parsed, not_a_number, negative, natural}
use attest_so.Schema.Types.{
  FieldValidation, SchemaField, SchemaDefinition, ScVal, scv_string, scv_bool, scv_i128, scv_vec,
  scv_map, to_vec, to_map,
}

-- `xdr.Uint64.fromString` throws where the number does not fit in 64 bits, and at "NaN". The high half
-- is 0.
unfoldable pub i128_entry : String → Option Parsed → Option (List (String × ScVal))
i128_entry key none = some []
i128_entry key (some not_a_number) = none
i128_entry key (some negative) = none
i128_entry key (some (natural n)) = if ltb n (2 ^ 64) then some ((key, scv_i128 0 n) ∷ []) else none

unfoldable pub text_entry : String → Option String → List (String × ScVal)
text_entry key none = []
text_entry key (some t) = if truthy t then (key, scv_string t) ∷ [] else []

unfoldable pub enum_entry : Option (List String) → List (String × ScVal)
enum_entry none = []
enum_entry (some []) = []
enum_entry (some (v ∷ vs)) = ("enum", scv_vec (to_vec (map scv_string (v ∷ vs)))) ∷ []

unfoldable pub validation_to_xdr : FieldValidation → Option ScVal
validation_to_xdr v = do
  min ← i128_entry "min" v.min
  max ← i128_entry "max" v.max
  some (scv_map (to_map (min ++ (max ++ (text_entry "pattern" v.pattern ++ enum_entry v.enum)))))

unfoldable pub validation_entry : Option FieldValidation → Option (List (String × ScVal))
validation_entry none = some []
validation_entry (some v) = do value ← validation_to_xdr v; some (("validation", value) ∷ [])

unfoldable pub field_to_xdr : SchemaField → Option ScVal
field_to_xdr f = do
  validation ← validation_entry f.validation
  some (
      scv_map (
        to_map (
          ("name", scv_string f.name)
          ∷ ("type", scv_string f.type)
          ∷ ("optional", scv_bool (f.optional or_else false))
          ∷ (text_entry "description" f.description ++ validation))))

unfoldable pub fields_to_xdr : List SchemaField → Option (List ScVal)
fields_to_xdr [] = some []
fields_to_xdr (f ∷ fs) = do v ← field_to_xdr f; vs ← fields_to_xdr fs; some (v ∷ vs)

unfoldable pub schema_to_xdr : SchemaDefinition → Option ScVal
schema_to_xdr s = do
  fields ← fields_to_xdr s.fields
  some (
      scv_map (
        to_map (
          ("name", scv_string s.name)
          ∷ ("description", scv_string (text_or s.description s.name))
          ∷ ("fields", scv_vec (to_vec fields))
          ∷ [])))
