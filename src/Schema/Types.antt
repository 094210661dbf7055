-- ===== src/Schema/Types.antt =====
-- packages/stellar-sdk/src/common/schemaEncoder.ts: schema definitions without their metadata,
-- `validateSchema`, and the XDR values that the encoder makes. A limit is a whole number or NaN.
use Prim.Native.String.{String}
use attest_so.Prelude.{
  ℕ, Bool, not, ◌||◌, List, [], ◌∷◌, Option, none, some, any, truthy, ◌is◌, ◌&◌, if◌then◌else◌,
}
use text.Mathlib.Text.{starts_with}
use attest_so.Listing.Params.{Parsed}

pub record FieldValidation : Type 0 where
  pub min : Option Parsed
  pub max : Option Parsed
  pub pattern : Option String
  pub enum : Option (List String)

pub record SchemaField : Type 0 where
  pub name : String
  pub type : String
  pub optional : Option Bool
  pub description : Option String
  pub validation : Option FieldValidation

pub record SchemaDefinition : Type 0 where
  pub name : String
  pub description : Option String
  pub fields : List SchemaField

-- The values of `StellarDataType`.
abbrev stellar_data_types : List String
stellar_data_types =
    "string" ∷ "bool" ∷ "u32" ∷ "u64" ∷ "i32" ∷ "i64" ∷ "i128" ∷ "number" ∷ "address" ∷ "bytes"
    ∷ "symbol" ∷ "array" ∷ "map" ∷ "timestamp" ∷ "amount" ∷ []

unfoldable pub is_valid_stellar_type : String → Bool
is_valid_stellar_type t =
    any (λ u. t is u) stellar_data_types
    || starts_with t "array<"
    || starts_with t "option<"
    || starts_with t "map<"

-- The loop over the fields, with the names seen so far; the message of what it throws.
unfoldable pub validate_fields : List String → List SchemaField → Option String
validate_fields seen [] = none
validate_fields seen (f ∷ fs) =
    let rest = validate_fields (f.name ∷ seen) fs in
    if not (truthy f.name)
    then some "Each field must have a valid name"
    else if any (λ n. f.name is n) seen
    then some ("Duplicate field name: " & f.name)
    else if not (is_valid_stellar_type f.type)
    then some ("Invalid type '" & f.type & "' for field '" & f.name & "'")
    else rest

unfoldable pub validate_parts : String → List SchemaField → Option String
unfolding validate_fields
validate_parts name [] =
    if not (truthy name)
    then some "Schema must have a valid name"
    else some "Schema must have at least one field"
validate_parts name (f ∷ fs) =
    if not (truthy name) then some "Schema must have a valid name" else validate_fields [] (f ∷ fs)

unfoldable pub validate_schema : SchemaDefinition → Option String
unfolding validate_parts
validate_schema s = validate_parts s.name s.fields

mutual
  pub data ScVal : Type 0 where
    scv_string : String → ScVal
    scv_bool : Bool → ScVal
    -- The high and the low half.
    scv_i128 : ℕ → ℕ → ScVal
    scv_vec : ScVec → ScVal
    scv_map : ScMap → ScVal

  pub data ScVec : Type 0 where
    vec_end : ScVec
    vec_item : ScVal → ScVec → ScVec

  -- The entries of a map, whose keys are symbols.
  pub data ScMap : Type 0 where
    map_end : ScMap
    map_entry : String → ScVal → ScMap → ScMap

abbrev pub to_vec : List ScVal → ScVec
to_vec [] = vec_end
to_vec (v ∷ vs) = vec_item v (to_vec vs)

abbrev pub to_map : List (String × ScVal) → ScMap
to_map [] = map_end
to_map ((k, v) ∷ es) = map_entry k v (to_map es)
