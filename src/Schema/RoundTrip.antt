-- ===== src/Schema/RoundTrip.antt =====
-- What `fromXDR` makes of the text that `toXDR` made of a schema.
use Prim.Native.String.{String, len, slice}
use text.Mathlib.TextEquality.{eq_iff}
use text.Mathlib.TextPositions.{len-append, slice-append_right, starts_with-append}
use attest_so.Prelude.{
  All, ◌≡◌, refl, ap, ◌∙◌, inl, inr, true, false, not, List, [], ◌∷◌, map, Option, none, some, any,
  truthy, ◌is◌, ◌&◌, if◌then◌else◌, Bool-cases,
}
use attest_so.Schema.Types.{
  SchemaField, SchemaDefinition, is_valid_stellar_type, validate_fields, validate_parts,
  validate_schema, ScVal,
}
use attest_so.Schema.Xdr.{schema_to_xdr}
use attest_so.Schema.Encoder.{Codec, new_encoder, to_xdr, from_xdr}
use attest_so.Schema.Totality.{HasU64Limits, schema_to_xdr-made}
use attest_so.Schema.Stored.{AllNamed, stored_field, stored}
use attest_so.Schema.Reading.{schema-read}

valid-truthy : (t : String) → is_valid_stellar_type t ≡ true → truthy t ≡ true
unfolding is_valid_stellar_type
valid-truthy t v = elim (Bool-cases (t is "")) [
  | inl empty ↦ absurd (cc (rw ((eq_iff t "").0 empty) at v))
  | inr full ↦ rw full refl
]

validate_fields-AllNamed :
    (seen : List String) (fs : List SchemaField) → validate_fields seen fs ≡ none → AllNamed fs
unfolding validate_fields AllNamed
validate_fields-AllNamed seen [] h = tt
validate_fields-AllNamed seen (f ∷ fs) h = elim (Bool-cases (truthy f.name)) [
  | inr unnamed ↦ absurd (cc (rw unnamed at h))
  | inl named ↦ elim (Bool-cases (any (λ n. f.name is n) seen)) [
    | inl twice ↦ absurd (cc (rw (named, twice) at h))
    | inr once ↦ elim (Bool-cases (is_valid_stellar_type f.type)) [
      | inr bad ↦ absurd (cc (rw (named, once, bad) at h))
      | inl good ↦ (
        named,
        valid-truthy f.type good,
        validate_fields-AllNamed (f.name ∷ seen) fs (rw (named, once, good) at h),
      )
    ]
  ]
]

module _ (codec : Codec) where
  validate_fields-stored :
      (seen : List String) (fs : List SchemaField)
      → validate_fields seen (map (stored_field codec.i128_text) fs) ≡ validate_fields seen fs
  unfolding validate_fields
  validate_fields-stored seen [] = refl
  validate_fields-stored seen (f ∷ fs) = rw (validate_fields-stored (f.name ∷ seen) fs) refl

  validate_parts-stored :
      (name : String) (fs : List SchemaField)
      → validate_parts name (map (stored_field codec.i128_text) fs) ≡ validate_parts name fs
  unfolding validate_parts
  validate_parts-stored name [] = refl
  validate_parts-stored name (f ∷ fs) =
      ap
        (λ (r : Option String).
          if not (truthy name) then some "Schema must have a valid name" else r)
        (validate_fields-stored [] (f ∷ fs))

valid-named :
    (name : String) (fs : List SchemaField)
    → validate_parts name fs ≡ none
    → (truthy name ≡ true) × AllNamed fs
unfolding validate_parts
valid-named name fs h = elim (Bool-cases (truthy name)) [
  | inl named ↦ (named, go fs named h)
  | inr unnamed ↦ absurd (go_unnamed fs unnamed h)
]
  where
    go : (fs : List SchemaField) → truthy name ≡ true → validate_parts name fs ≡ none → AllNamed fs
    go [] named h = absurd (cc (rw named at h))
    go (f ∷ fs) named h = validate_fields-AllNamed [] (f ∷ fs) (rw named at h)

    go_unnamed : (fs : List SchemaField) → truthy name ≡ false → validate_parts name fs ≡ none → ⊥
    go_unnamed [] unnamed h = cc (rw unnamed at h)
    go_unnamed (f ∷ fs) unnamed h = cc (rw unnamed at h)

new_encoder-valid :
    (codec : Codec) (s : SchemaDefinition)
    → validate_schema s ≡ none
    → codec.compiles s ≡ true
    → new_encoder codec s ≡ some s
unfolding new_encoder
new_encoder-valid codec s valid compiled = rw (valid, new_encoder) (rw compiled refl)

-- The text behind the prefix.
behind_prefix : (t : String) → slice ("XDR:" & t) 4 (len ("XDR:" & t)) ≡ t
behind_prefix t = rw (len-append "XDR:" t) (slice-append_right "XDR:" t)

read_back :
    (codec : Codec) (s : SchemaDefinition) (v : ScVal) (t : String)
    → codec.from_base64 t ≡ some v
    → codec.compiles (stored codec.i128_text s) ≡ true
    → validate_schema s ≡ none
    → schema_to_xdr s ≡ some v
    → from_xdr codec ("XDR:" & t) ≡ some (stored codec.i128_text s)
unfolding from_xdr
read_back codec s v t reads compiled valid fits =
    let (named, all) = valid-named s.name s.fields (unfold validate_schema in valid) in
    let kept : validate_schema (stored codec.i128_text s) ≡ none =
      unfold validate_schema in validate_parts-stored codec s.name s.fields ∙ valid in
    rw (starts_with-append "XDR:" t, behind_prefix t, reads)
      (rw (schema-read codec.i128_text s v named all fits)
        (new_encoder-valid codec _ kept compiled))

-- The library writes a value, and reads it back from what it wrote.
abbrev pub Keeps : Codec → ScVal → Type 0
Keeps codec v = (t : String) × (codec.to_base64 v ≡ some t) × (codec.from_base64 t ≡ some v)

-- A valid schema is encoded, and its text is read back as the schema that is stored: names and types
-- are kept, `optional` becomes a Boolean, a missing description is the name, empty texts are dropped,
-- and a limit becomes what parseInt makes of the text of the 128-bit value, NaN where that is no
-- number. The limits, if any, are natural numbers of 64 bits. It is given that the XDR library writes
-- the value made of the schema and reads it back, and that Ajv compiles the stored schema.
pub from_xdr-to_xdr :
    (codec : Codec) (s : SchemaDefinition)
    → ((v : ScVal) → schema_to_xdr s ≡ some v → Keeps codec v)
    → codec.compiles (stored codec.i128_text s) ≡ true
    → validate_schema s ≡ none
    → All (λ f. HasU64Limits (SchemaField.validation f)) s.fields
    → (text : String) × (to_xdr codec s ≡ some text)
      × (from_xdr codec text ≡ some (stored codec.i128_text s))
unfolding to_xdr
from_xdr-to_xdr codec s keeps compiled valid small =
    let (v, fits) = schema_to_xdr-made s small in
    let (t, writes, reads) = keeps v fits in
    ("XDR:" & t, rw (fits, writes) refl, read_back codec s v t reads compiled valid fits)
