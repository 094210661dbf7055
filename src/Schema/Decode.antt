-- ===== src/Schema/Decode.antt =====
-- packages/stellar-sdk/src/common/schemaEncoder.ts: how `fromXDR` reads the XDR value of a schema. A
-- key of a map is a symbol. `none` stands for an error that is thrown.
use Prim.Native.String.{String}
use attest_so.Prelude.{
  ℕ, Bool, ◌&&◌, List, [], ◌∷◌, Option, none, some, truthy, ◌is◌, if◌then◌else◌, ◌>>=◌,
}
use attest_so.Listing.Params.{Parsed, parse_int}
use attest_so.Schema.Types.{
  FieldValidation, SchemaField, SchemaDefinition, ScVal, scv_string, scv_bool, scv_i128, scv_vec,
  scv_map, ScVec, vec_end, vec_item, ScMap, map_end, map_entry,
}

-- A text that is no string value is passed over by `filter`.
abbrev pub enum_values : ScVec → List String
enum_values vec_end = []
enum_values (vec_item (scv_string t) vs) = if truthy t then t ∷ enum_values vs else enum_values vs
enum_values (vec_item _ vs) = enum_values vs

pub record PartialField : Type 0 where
  pub name : Option String
  pub type : Option String
  pub optional : Option Bool
  pub description : Option String
  pub validation : Option FieldValidation

pub record PartialSchema : Type 0 where
  pub name : Option String
  pub description : Option String
  pub fields : Option (List SchemaField)

abbrev pub no_validation : FieldValidation
no_validation = record { min = none; max = none; pattern = none; enum = none }

abbrev no_field : PartialField
no_field = record {
  name = none;
  type = none;
  optional = none;
  description = none;
  validation = none;
}

abbrev no_schema : PartialSchema
no_schema = record { name = none; description = none; fields = none }

abbrev string_or : ScVal → Option String → Option String
string_or (scv_string t) old = some t
string_or _ old = old

abbrev bool_or : ScVal → Option Bool → Option Bool
bool_or (scv_bool b) old = some b
bool_or _ old = old

-- `i128_text` is the text that `toString` gives of the `Int128Parts` with the two halves.
module _ (i128_text : ℕ → ℕ → String) where
  abbrev i128_or : ScVal → Option Parsed → Option Parsed
  i128_or (scv_i128 hi lo) old = some (parse_int (i128_text hi lo))
  i128_or _ old = old

  abbrev enum_or : ScVal → Option (List String) → Option (List String)
  enum_or (scv_vec vs) old = some (enum_values vs)
  enum_or _ old = old

  abbrev validation_step : String → ScVal → FieldValidation → FieldValidation
  validation_step key value v =
      if key is "min"
      then record v { min = i128_or value v.min }
      else if key is "max"
      then record v { max = i128_or value v.max }
      else if key is "pattern"
      then record v { pattern = string_or value v.pattern }
      else if key is "enum"
      then record v { enum = enum_or value v.enum }
      else v

  unfoldable pub parse_validation : ScMap → FieldValidation → FieldValidation
  parse_validation map_end v = v
  parse_validation (map_entry key value rest) v =
      parse_validation rest (validation_step key value v)

  abbrev validation_or : ScVal → Option FieldValidation → Option FieldValidation
  validation_or (scv_map m) old = some (parse_validation m no_validation)
  validation_or _ old = old

  abbrev field_step : String → ScVal → PartialField → PartialField
  field_step key value f =
      if key is "name"
      then record f { name = string_or value f.name }
      else if key is "type"
      then record f { type = string_or value f.type }
      else if key is "optional"
      then record f { optional = bool_or value f.optional }
      else if key is "description"
      then record f { description = string_or value f.description }
      else if key is "validation"
      then record f { validation = validation_or value f.validation }
      else f

  unfoldable pub field_loop : ScMap → PartialField → PartialField
  field_loop map_end f = f
  field_loop (map_entry key value rest) f = field_loop rest (field_step key value f)

  -- `!field.name || !field.type`
  abbrev pub whole_field : PartialField → Option SchemaField
  whole_field p = do
    name ← p.name
    type ← p.type
    (if truthy name && truthy type
        then some (record {
          name = name;
          type = type;
          optional = p.optional;
          description = p.description;
          validation = p.validation;
        })
        else none)

  unfoldable pub parse_field : ScVal → Option SchemaField
  unfolding field_loop
  parse_field (scv_map m) = whole_field (field_loop m no_field)
  parse_field _ = none

  unfoldable pub parse_fields : ScVec → Option (List SchemaField)
  parse_fields vec_end = some []
  parse_fields (vec_item v vs) = do f ← parse_field v; fs ← parse_fields vs; some (f ∷ fs)

  abbrev fields_or : ScVal → Option (List SchemaField) → Option (Option (List SchemaField))
  fields_or (scv_vec vs) old = do fs ← parse_fields vs; some (some fs)
  fields_or _ old = some old

  abbrev schema_step : String → ScVal → PartialSchema → Option PartialSchema
  schema_step key value s =
      if key is "name"
      then some (record s { name = string_or value s.name })
      else if key is "description"
      then some (record s { description = string_or value s.description })
      else if key is "fields"
      then (fields_or value s.fields >>= λ fs. some (record s { fields = fs }))
      else some s

  unfoldable pub schema_loop : ScMap → PartialSchema → Option PartialSchema
  schema_loop map_end s = some s
  schema_loop (map_entry key value rest) s = do s' ← schema_step key value s; schema_loop rest s'

  abbrev whole_schema : PartialSchema → Option SchemaDefinition
  whole_schema p = do
    name ← p.name
    fields ← p.fields
    if truthy name
        then some (record { name = name; description = p.description; fields = fields })
        else none

  unfoldable pub schema_from_xdr : ScVal → Option SchemaDefinition
  schema_from_xdr (scv_map m) = do p ← schema_loop m no_schema; whole_schema p
  schema_from_xdr _ = none
