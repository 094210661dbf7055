-- ===== src/Schema/Stored.antt =====
-- packages/stellar-sdk/src/common/schemaEncoder.ts: what a schema is after `toXDR` and `fromXDR`.
use Prim.Native.String.{String}
use attest_so.Prelude.{
  ℕ, ◌≡◌, true, false, List, [], ◌∷◌, map, filter, Option, none, some, truthy, text_or, ◌or_else◌,
  if◌then◌else◌,
}
use attest_so.Listing.Params.{Parsed, natural, parse_int}
use attest_so.Schema.Types.{FieldValidation, SchemaField, SchemaDefinition}

-- An empty text counts as none.
abbrev pub some_text : Option String → Option String
some_text none = none
some_text (some t) = if truthy t then some t else none

-- An empty list counts as none, and empty texts in it are passed over.
abbrev pub some_texts : Option (List String) → Option (List String)
some_texts none = none
some_texts (some []) = none
some_texts (some (v ∷ vs)) = some (filter truthy (v ∷ vs))

-- Every field has a name and a type.
unfoldable pub AllNamed : List SchemaField → Type 0
AllNamed [] = Unit
AllNamed (f ∷ fs) = (truthy f.name ≡ true) × (truthy f.type ≡ true) × AllNamed fs

module _ (i128_text : ℕ → ℕ → String) where
  -- A number that has been written is read by `parseInt`; others are not written.
  abbrev pub read_limit : Option Parsed → Option Parsed
  read_limit none = none
  read_limit (some (natural n)) = some (parse_int (i128_text 0 n))
  read_limit (some p) = some p

  abbrev pub stored_validation : Option FieldValidation → Option FieldValidation
  stored_validation none = none
  stored_validation (some v) = some (record {
    min = read_limit v.min;
    max = read_limit v.max;
    pattern = some_text v.pattern;
    enum = some_texts v.enum;
  })

  -- A field as it is stored.
  abbrev pub stored_field : SchemaField → SchemaField
  stored_field f = record {
    name = f.name;
    type = f.type;
    optional = some (f.optional or_else false);
    description = some_text f.description;
    validation = stored_validation f.validation;
  }

  -- A schema as it is stored.
  abbrev pub stored : SchemaDefinition → SchemaDefinition
  stored s = record {
    name = s.name;
    description = some (text_or s.description s.name);
    fields = map stored_field s.fields;
  }
