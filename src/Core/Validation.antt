-- ===== src/Core/Validation.antt =====
-- packages/core/src/base.ts: the checks of parameters and definitions, and pages. `none` stands for
-- null: no error. `now` is what `Date.now()` returns; `parse_int` is `parseInt(text, 10)`, with `none`
-- for NaN.
use Prim.Native.String.{String}
use attest_so.Prelude.{
  ℕ, ◌+◌, Bool, true, false, List, [], ◌∷◌, Option, none, some, length, ltb, leb, ◌==◌, ◌is◌, ◌&◌,
  if◌then◌else◌,
}
use attest_so.Core.Types.{
  validation_error, AttestProtocolError, create_attest_protocol_error, SchemaDefinition,
  ExpirationTime, no_time, at_number, at_text, AttestationDefinition, RevocationDefinition,
  PaginatedResponse,
}

unfoldable ensure_initialized : Bool → Option AttestProtocolError
unfolding create_attest_protocol_error
ensure_initialized initialized =
    if initialized
    then none
    else some (
        create_attest_protocol_error validation_error
          "SDK must be initialized before performing operations. Call initialize() first." none
          none)

-- Undefined, null, or the empty text.
abbrev pub is_missing : Option (List ℕ) → Bool
is_missing none = true
is_missing (some []) = true
is_missing (some (u ∷ us)) = false

unfoldable pub missing_error : String → AttestProtocolError
unfolding create_attest_protocol_error
missing_error field =
    create_attest_protocol_error validation_error
      ("Required parameter '" & field & "' is missing or empty") none none

unfoldable pub validate_required :
    (String → Option (List ℕ)) → List String → Option AttestProtocolError
validate_required params [] = none
validate_required params (field ∷ fields) =
    let rest = validate_required params fields in
    if is_missing (params field) then some (missing_error field) else rest

abbrev schema_param : SchemaDefinition → String → Option (List ℕ)
schema_param s field =
    if field is "name" then s.name else if field is "content" then s.content else none

abbrev attestation_param : AttestationDefinition → String → Option (List ℕ)
attestation_param a field =
    if field is "schemaUid"
    then a.schema_uid
    else if field is "subject"
    then a.subject
    else if field is "data"
    then a.data_text
    else none

abbrev revocation_param : RevocationDefinition → String → Option (List ℕ)
revocation_param r field = if field is "attestationUid" then r.attestation_uid else none

abbrev pub size : Option (List ℕ) → ℕ
size none = 0
size (some us) = length us

abbrev invalid : String → Option AttestProtocolError
invalid message = some (create_attest_protocol_error validation_error message none none)

unfoldable pub validate_schema_definition : SchemaDefinition → Option AttestProtocolError
unfolding validate_required
validate_schema_definition s = elim (validate_required (schema_param s) ("name" ∷ "content" ∷ [])) [
  | some e ↦ some e
  | none ↦
      if ltb 100 (size s.name)
      then invalid "Schema name must be 100 characters or less"
      else if size s.content == 0
      then invalid "Schema content cannot be empty"
      else none
]

-- The time that is compared with the clock; `none` where there is none, or NaN.
unfoldable pub expiration_of : (List ℕ → Option ℕ) → ExpirationTime → Option ℕ
expiration_of parse_int no_time = none
expiration_of parse_int (at_number t) = if t == 0 then none else some t
expiration_of parse_int (at_text []) = none
expiration_of parse_int (at_text (u ∷ us)) = parse_int (u ∷ us)

unfoldable pub validate_attestation_definition :
    (List ℕ → Option ℕ) → ℕ → AttestationDefinition → Option AttestProtocolError
unfolding validate_required expiration_of
validate_attestation_definition parse_int now a =
    elim (validate_required (attestation_param a) ("schemaUid" ∷ "subject" ∷ "data" ∷ [])) [
      | some e ↦ some e
      | none ↦ elim (expiration_of parse_int a.expiration_time) [
        | none ↦ none
        | some t ↦ if leb t now then invalid "Expiration time must be in the future" else none
      ]
    ]

unfoldable validate_revocation_definition : RevocationDefinition → Option AttestProtocolError
unfolding validate_required
validate_revocation_definition r = validate_required (revocation_param r) ("attestationUid" ∷ [])

unfoldable pub create_paginated_response : {T : Type 0} → List T → ℕ → ℕ → ℕ → PaginatedResponse T
create_paginated_response items total limit offset = record {
  items = items;
  total = total;
  limit = limit;
  offset = offset;
  has_more = ltb (offset + length items) total;
}
