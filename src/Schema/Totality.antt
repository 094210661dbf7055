-- ===== src/Schema/Totality.antt =====
-- When `toXDR` of packages/stellar-sdk/src/common/schemaEncoder.ts does not throw.
use Prim.Native.String.{String}
use attest_so.Prelude.{
  ◌^◌, ◌<◌, ◌≡◌, refl, List, [], ◌∷◌, Option, none, some, lt→ltb, All, Option-cases, inl, inr,
}
use attest_so.Listing.Params.{Parsed, not_a_number, negative, natural}
use attest_so.Schema.Types.{FieldValidation, SchemaField, SchemaDefinition, ScVal, scv_i128}
use attest_so.Schema.Xdr.{
  i128_entry, validation_to_xdr, validation_entry, field_to_xdr, fields_to_xdr, schema_to_xdr,
}

-- A limit, if there is one, is a natural number of 64 bits.
abbrev IsU64Limit : Option Parsed → Type 0
IsU64Limit none = Unit
IsU64Limit (some not_a_number) = ⊥
IsU64Limit (some negative) = ⊥
IsU64Limit (some (natural n)) = n < 2 ^ 64

abbrev pub HasU64Limits : Option FieldValidation → Type 0
HasU64Limits none = Unit
HasU64Limits (some v) = IsU64Limit v.min × IsU64Limit v.max

i128_entry-made :
    (key : String) (n : Option Parsed)
    → IsU64Limit n
    → (es : List (String × ScVal)) × (i128_entry key n ≡ some es)
unfolding i128_entry
i128_entry-made key none h = ([], refl)
i128_entry-made key (some not_a_number) h = absurd h
i128_entry-made key (some negative) h = absurd h
i128_entry-made key (some (natural n)) h = ((key, scv_i128 0 n) ∷ [], rw (lt→ltb n (2 ^ 64) h) refl)

validation_entry-made :
    (v : Option FieldValidation)
    → HasU64Limits v
    → (es : List (String × ScVal)) × (validation_entry v ≡ some es)
unfolding validation_entry validation_to_xdr
validation_entry-made none h = ([], refl)
validation_entry-made (some v) (low, high) =
    let (least, fits) = i128_entry-made "min" v.min low in
    let (most, fits2) = i128_entry-made "max" v.max high in
    elim (Option-cases (validation_entry (some v))) [
      | inl bad ↦ absurd (cc (rw (fits, fits2) at bad))
      | inr found ↦ found
    ]

fields_to_xdr-made :
    (fs : List SchemaField)
    → All (λ f. HasU64Limits (SchemaField.validation f)) fs
    → (vs : List ScVal) × (fields_to_xdr fs ≡ some vs)
unfolding fields_to_xdr field_to_xdr
fields_to_xdr-made [] h = ([], refl)
fields_to_xdr-made (f ∷ fs) (l, h) =
    let (es, fits) = validation_entry-made f.validation l in
    let (vs, rest) = fields_to_xdr-made fs h in
    elim (Option-cases (fields_to_xdr (f ∷ fs))) [
      | inl bad ↦ absurd (cc (rw (fits, rest) at bad))
      | inr found ↦ found
    ]

pub schema_to_xdr-made :
    (s : SchemaDefinition)
    → All (λ f. HasU64Limits (SchemaField.validation f)) s.fields
    → (v : ScVal) × (schema_to_xdr s ≡ some v)
unfolding schema_to_xdr
schema_to_xdr-made s h =
    let (vs, made) = fields_to_xdr-made s.fields h in
    elim (Option-cases (schema_to_xdr s)) [
      | inl bad ↦ absurd (cc (rw made at bad))
      | inr found ↦ found
    ]
