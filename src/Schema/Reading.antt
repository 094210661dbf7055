-- ===== src/Schema/Reading.antt =====
-- packages/stellar-sdk/src/common/schemaEncoder.ts: each part of an XDR schema as it is read back.
use Prim.Native.String.{String}
use mathlib.Core.Option.{some_inj}
use attest_so.Prelude.{
  ℕ, ◌^◌, ◌≡◌, refl, ap, ◌∙◌, inl, inr, true, List, [], ◌∷◌, ◌++◌, map, filter, Option, none, some,
  ltb, truthy, Bool-cases, Option-cases,
}
use attest_so.Listing.Params.{Parsed, not_a_number, negative, natural}
use attest_so.Schema.Types.{
  FieldValidation, SchemaField, SchemaDefinition, ScVal, scv_string, to_vec, to_map,
}
use attest_so.Schema.Xdr.{
  i128_entry, text_entry, enum_entry, validation_to_xdr, validation_entry, field_to_xdr,
  fields_to_xdr, schema_to_xdr,
}
use attest_so.Schema.Decode.{
  enum_values, PartialField, no_validation, parse_validation, field_loop, whole_field, parse_field,
  parse_fields, schema_loop, schema_from_xdr,
}
use attest_so.Schema.Stored.{
  some_text, some_texts, AllNamed, read_limit, stored_validation, stored_field, stored,
}

module _ (i128_text : ℕ → ℕ → String) where
  -- One entry after another is read.
  description-read :
      (f : PartialField) (d : Option String) (rest : List (String × ScVal))
      → f.description ≡ none
      → field_loop i128_text (to_map (text_entry "description" d ++ rest)) f
        ≡ field_loop i128_text (to_map rest) (record f { description = some_text d })
  unfolding field_loop text_entry
  description-read f none rest e =
      ap (λ (d : Option String). field_loop i128_text (to_map rest) (record f { description = d }))
        e
  description-read f (some t) rest e = elim (Bool-cases (truthy t)) [
    | inl y ↦ rw y refl
    | inr n ↦ rw n (
        ap
          (λ (d : Option String). field_loop i128_text (to_map rest) (record f { description = d }))
          e)
  ]

  pattern-read :
      (v : FieldValidation) (d : Option String) (rest : List (String × ScVal))
      → v.pattern ≡ none
      → parse_validation i128_text (to_map (text_entry "pattern" d ++ rest)) v
        ≡ parse_validation i128_text (to_map rest) (record v { pattern = some_text d })
  unfolding parse_validation text_entry
  pattern-read v none rest e =
      ap
        (λ (d : Option String). parse_validation i128_text (to_map rest) (record v { pattern = d }))
        e
  pattern-read v (some t) rest e = elim (Bool-cases (truthy t)) [
    | inl y ↦ rw y refl
    | inr n ↦ rw n (
        ap
          (λ (d : Option String).
            parse_validation i128_text (to_map rest) (record v { pattern = d }))
          e)
  ]

  enum_values-read :
      (vs : List String) → enum_values (to_vec (map scv_string vs)) ≡ filter truthy vs
  enum_values-read [] = refl
  enum_values-read (v ∷ vs) = elim (Bool-cases (truthy v)) [
    | inl y ↦ rw y (ap (λ r. v ∷ r) (enum_values-read vs))
    | inr n ↦ rw n (enum_values-read vs)
  ]

  enum-read :
      (v : FieldValidation) (vs : Option (List String))
      → v.enum ≡ none
      → parse_validation i128_text (to_map (enum_entry vs)) v ≡ record v { enum = some_texts vs }
  unfolding parse_validation enum_entry
  enum-read v none e = ap (λ (d : Option (List String)). record v { enum = d }) e
  enum-read v (some []) e = ap (λ (d : Option (List String)). record v { enum = d }) e
  enum-read v (some (t ∷ ts)) e =
      ap (λ (d : List String). record v { enum = some d }) (enum_values-read (t ∷ ts))

  min-read :
      (v : FieldValidation) (n : Option Parsed) (es rest : List (String × ScVal))
      → v.min ≡ none
      → i128_entry "min" n ≡ some es
      → parse_validation i128_text (to_map (es ++ rest)) v
        ≡ parse_validation i128_text (to_map rest) (record v { min = read_limit i128_text n })
  unfolding parse_validation i128_entry
  min-read v none es rest e h = rw (← some_inj.0 h) (
      ap (λ (d : Option Parsed). parse_validation i128_text (to_map rest) (record v { min = d })) e)
  min-read v (some not_a_number) es rest e h = absurd (cc h)
  min-read v (some negative) es rest e h = absurd (cc h)
  min-read v (some (natural n)) es rest e h = elim (Bool-cases (ltb n (2 ^ 64))) [
    | inl fits ↦ rw (← some_inj.0 (rw fits at h)) refl
    | inr wide ↦ absurd (cc (rw wide at h))
  ]

  max-read :
      (v : FieldValidation) (n : Option Parsed) (es rest : List (String × ScVal))
      → v.max ≡ none
      → i128_entry "max" n ≡ some es
      → parse_validation i128_text (to_map (es ++ rest)) v
        ≡ parse_validation i128_text (to_map rest) (record v { max = read_limit i128_text n })
  unfolding parse_validation i128_entry
  max-read v none es rest e h = rw (← some_inj.0 h) (
      ap (λ (d : Option Parsed). parse_validation i128_text (to_map rest) (record v { max = d })) e)
  max-read v (some not_a_number) es rest e h = absurd (cc h)
  max-read v (some negative) es rest e h = absurd (cc h)
  max-read v (some (natural n)) es rest e h = elim (Bool-cases (ltb n (2 ^ 64))) [
    | inl fits ↦ rw (← some_inj.0 (rw fits at h)) refl
    | inr wide ↦ absurd (cc (rw wide at h))
  ]

  -- The entry of the validation, if any, is read.
  validation-read :
      (f : PartialField) (v : Option FieldValidation) (es : List (String × ScVal))
      → f.validation ≡ none
      → validation_entry v ≡ some es
      → field_loop i128_text (to_map es) f ≡ record f { validation = stored_validation i128_text v }
  unfolding validation_entry validation_to_xdr field_loop
  validation-read f none es e h =
      rw (← some_inj.0 h) (ap (λ (d : Option FieldValidation). record f { validation = d }) e)
  validation-read f (some v) es e h = elim (Option-cases (i128_entry "min" v.min)) [
    | inl wide ↦ absurd (cc (rw wide at h))
    | inr (least, fits) ↦ elim (Option-cases (i128_entry "max" v.max)) [
      | inl wide ↦ absurd (cc (rw (fits, wide) at h))
      | inr (most, fits2) ↦ rw (← some_inj.0 (rw (fits, fits2) at h)) (
          ap (λ (d : FieldValidation). record f { validation = some d })
            (min-read no_validation v.min least _ refl fits
              ∙ max-read _ v.max most _ refl fits2
              ∙ pattern-read _ v.pattern (enum_entry v.enum) refl
              ∙ enum-read _ v.enum refl))
    ]
  ]

  field-read :
      (f : SchemaField) (v : ScVal)
      → truthy f.name ≡ true
      → truthy f.type ≡ true
      → field_to_xdr f ≡ some v
      → parse_field i128_text v ≡ some (stored_field i128_text f)
  unfolding field_to_xdr parse_field field_loop
  field-read f v named typed h = elim (Option-cases (validation_entry f.validation)) [
    | inl wide ↦ absurd (cc (rw wide at h))
    | inr (es, fits) ↦ rw (← some_inj.0 (rw fits at h)) (
        ap (whole_field i128_text)
          (description-read _ f.description es refl ∙ validation-read _ f.validation es refl fits)
        ∙ rw (named, typed) refl)
  ]

  fields-read :
      (fs : List SchemaField) (vs : List ScVal)
      → AllNamed fs
      → fields_to_xdr fs ≡ some vs
      → parse_fields i128_text (to_vec vs) ≡ some (map (stored_field i128_text) fs)
  unfolding fields_to_xdr parse_fields AllNamed
  fields-read [] vs n h = rw (← some_inj.0 h) refl
  fields-read (f ∷ fs) vs (named, typed, n) h = elim (Option-cases (field_to_xdr f)) [
    | inl wide ↦ absurd (cc (rw wide at h))
    | inr (w, fits) ↦ elim (Option-cases (fields_to_xdr fs)) [
      | inl wide ↦ absurd (cc (rw (fits, wide) at h))
      | inr (ws, fits2) ↦
          rw (← some_inj.0 (rw (fits, fits2) at h))
            (rw (field-read f w named typed fits, fields-read fs ws n fits2) refl)
    ]
  ]

  pub schema-read :
      (s : SchemaDefinition) (v : ScVal)
      → truthy s.name ≡ true
      → AllNamed s.fields
      → schema_to_xdr s ≡ some v
      → schema_from_xdr i128_text v ≡ some (stored i128_text s)
  unfolding schema_to_xdr schema_from_xdr schema_loop
  schema-read s v named n h = elim (Option-cases (fields_to_xdr s.fields)) [
    | inl wide ↦ absurd (cc (rw wide at h))
    | inr (vs, fits) ↦
        rw (← some_inj.0 (rw fits at h)) (rw (fields-read s.fields vs n fits) (rw named refl))
  ]
