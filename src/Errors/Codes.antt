-- ===== src/Errors/Codes.antt =====
-- The codes of the errors that `ErrorFactory.createFromCode` makes, and which of them are retried.
use Prim.Native.String.{String}
use attest_so.Prelude.{ℕ, ◌<◌, ◌≡◌, refl, ◌↔◌, Bool, true, false, arith}
use attest_so.Errors.Types.{Details}
use attest_so.Errors.Factory.{
  ErrorCode, network_error_code, network_timeout, network_unavailable, contract_error_code,
  contract_not_found, contract_call_failed, transaction_error_code, transaction_failed,
  transaction_simulation_failed, insufficient_funds, validation_error_code, invalid_address,
  invalid_schema_uid, invalid_attestation_uid, invalid_signature, invalid_input, schema_error_code,
  schema_not_found, schema_already_exists, schema_invalid_format, attestation_error_code,
  attestation_not_found, attestation_already_exists, attestation_expired, attestation_revoked,
  cryptography_error_code, signature_verification_failed, key_generation_failed,
  configuration_error_code, missing_contract_id, invalid_network, authorization_error_code,
  unauthorized, forbidden, code_text, create_from_code,
}
use attest_so.Errors.Retry.{default_should_retry}

-- The groups that the comments of the enumeration name; a code with no class of its own stays.
abbrev group : ErrorCode → ErrorCode
group network_timeout = network_error_code
group network_unavailable = network_error_code
group contract_not_found = contract_error_code
group contract_call_failed = contract_error_code
group transaction_failed = transaction_error_code
group transaction_simulation_failed = transaction_error_code
group insufficient_funds = transaction_error_code
group invalid_address = validation_error_code
group invalid_schema_uid = validation_error_code
group invalid_attestation_uid = validation_error_code
group invalid_signature = validation_error_code
group invalid_input = validation_error_code
group schema_not_found = schema_error_code
group schema_already_exists = schema_error_code
group schema_invalid_format = schema_error_code
group attestation_not_found = attestation_error_code
group attestation_already_exists = attestation_error_code
group attestation_expired = attestation_error_code
group attestation_revoked = attestation_error_code
group signature_verification_failed = cryptography_error_code
group key_generation_failed = cryptography_error_code
group missing_contract_id = configuration_error_code
group invalid_network = configuration_error_code
group unauthorized = authorization_error_code
group forbidden = authorization_error_code
group c = c

-- The error made for a code carries the code of its group: which of the group's codes was asked for
-- is lost.
created_code :
    (c : ErrorCode) (m : String) (d : Details) → (create_from_code c m d).code ≡ code_text (group c)
unfolding create_from_code
created_code network_error_code m d = refl
created_code _ m d = refl

abbrev is_network_code : ErrorCode → Bool
is_network_code network_error_code = true
is_network_code network_timeout = true
is_network_code network_unavailable = true
is_network_code _ = false

-- Of the errors made from a code, the default configuration retries those of the network codes, up
-- to the second attempt, and no others.
retried_codes :
    (c : ErrorCode) (m : String) (d : Details) (attempt : ℕ)
    → (default_should_retry (create_from_code c m d) attempt ≡ true)
      ↔ ((is_network_code c ≡ true) × (attempt < 3))
unfolding create_from_code default_should_retry
retried_codes network_error_code m d attempt = ground arith
retried_codes _ m d attempt = ground arith
