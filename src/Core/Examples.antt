-- ===== src/Core/Examples.antt =====
-- Definitions checked by packages/core/src/base.ts, and the theorems at them.
use attest_so.Prelude.{ℕ, ◌<◌, ◌≡◌, refl, ◌↔◌, [], ◌∷◌, none, some}
use attest_so.Core.Types.{SchemaDefinition, AttestationDefinition, at_number, at_text}
use attest_so.Core.Validation.{
  missing_error, validate_required, validate_schema_definition, expiration_of,
  validate_attestation_definition,
}
use attest_so.Core.Checks.{IsGiven, validate_attestation_definition_iff}

abbrev nameless : SchemaDefinition
nameless = record { name = some []; content = some (123 ∷ 125 ∷ []) }

the_name_is_missing : validate_schema_definition nameless ≡ some (missing_error "name")
unfolding validate_schema_definition validate_required
the_name_is_missing = refl

abbrev expired : AttestationDefinition
expired = record {
  schema_uid = some (97 ∷ []);
  subject = some (98 ∷ []);
  data_text = some (99 ∷ []);
  expiration_time = at_number 1000;
}

validate_attestation_definition_iff_example :
    (validate_attestation_definition (λ t. none) 2000 expired ≡ none) ↔ (
      IsGiven expired.schema_uid
      × IsGiven expired.subject
      × IsGiven expired.data_text
      × ((t : ℕ) → expiration_of (λ t. none) expired.expiration_time ≡ some t → 2000 < t))
validate_attestation_definition_iff_example =
    validate_attestation_definition_iff (λ t. none) 2000 expired

-- A text that is no number is let through.
no_number_passes :
    validate_attestation_definition
      (λ t. none)
      2000
      (record expired { expiration_time = at_text (120 ∷ []) })
    ≡ none
unfolding validate_attestation_definition validate_required expiration_of
no_number_passes = refl
