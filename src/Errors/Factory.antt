-- ===== src/Errors/Factory.antt =====
-- packages/stellar-sdk/src/common/errors.ts: the error codes, and `ErrorFactory`.
use Prim.Native.String.{String}
use attest_so.Prelude.{
  Bool, false, ◌||◌, [], ◌∷◌, Option, none, some, truthy, text_or, ◌is◌, includes, if◌then◌else◌,
  ◌&◌,
}
use attest_so.Errors.Types.{
  Fields, ForeignError, Details, undefined, fields, original_error, StellarClientError,
  client_error, network_error, contract_error, transaction_error, validation_error, schema_error,
  attestation_error, cryptography_error, configuration_error, not_implemented_error,
  not_found_error, authorization_error,
}

pub data ErrorCode : Type 0 where
  network_error_code network_timeout network_unavailable : ErrorCode
  contract_error_code contract_not_found contract_call_failed : ErrorCode
  transaction_error_code transaction_failed transaction_simulation_failed : ErrorCode
  insufficient_funds : ErrorCode
  validation_error_code invalid_address invalid_schema_uid invalid_attestation_uid : ErrorCode
  invalid_signature invalid_input : ErrorCode
  schema_error_code schema_not_found schema_already_exists schema_invalid_format : ErrorCode
  attestation_error_code attestation_not_found attestation_already_exists : ErrorCode
  attestation_expired attestation_revoked : ErrorCode
  cryptography_error_code signature_verification_failed key_generation_failed : ErrorCode
  configuration_error_code missing_contract_id invalid_network : ErrorCode
  not_implemented_code deprecated : ErrorCode
  authorization_error_code unauthorized forbidden : ErrorCode
  unknown_error internal_error : ErrorCode

abbrev pub code_text : ErrorCode → String
code_text network_error_code = "NETWORK_ERROR"
code_text network_timeout = "NETWORK_TIMEOUT"
code_text network_unavailable = "NETWORK_UNAVAILABLE"
code_text contract_error_code = "CONTRACT_ERROR"
code_text contract_not_found = "CONTRACT_NOT_FOUND"
code_text contract_call_failed = "CONTRACT_CALL_FAILED"
code_text transaction_error_code = "TRANSACTION_ERROR"
code_text transaction_failed = "TRANSACTION_FAILED"
code_text transaction_simulation_failed = "TRANSACTION_SIMULATION_FAILED"
code_text insufficient_funds = "INSUFFICIENT_FUNDS"
code_text validation_error_code = "VALIDATION_ERROR"
code_text invalid_address = "INVALID_ADDRESS"
code_text invalid_schema_uid = "INVALID_SCHEMA_UID"
code_text invalid_attestation_uid = "INVALID_ATTESTATION_UID"
code_text invalid_signature = "INVALID_SIGNATURE"
code_text invalid_input = "INVALID_INPUT"
code_text schema_error_code = "SCHEMA_ERROR"
code_text schema_not_found = "SCHEMA_NOT_FOUND"
code_text schema_already_exists = "SCHEMA_ALREADY_EXISTS"
code_text schema_invalid_format = "SCHEMA_INVALID_FORMAT"
code_text attestation_error_code = "ATTESTATION_ERROR"
code_text attestation_not_found = "ATTESTATION_NOT_FOUND"
code_text attestation_already_exists = "ATTESTATION_ALREADY_EXISTS"
code_text attestation_expired = "ATTESTATION_EXPIRED"
code_text attestation_revoked = "ATTESTATION_REVOKED"
code_text cryptography_error_code = "CRYPTOGRAPHY_ERROR"
code_text signature_verification_failed = "SIGNATURE_VERIFICATION_FAILED"
code_text key_generation_failed = "KEY_GENERATION_FAILED"
code_text configuration_error_code = "CONFIGURATION_ERROR"
code_text missing_contract_id = "MISSING_CONTRACT_ID"
code_text invalid_network = "INVALID_NETWORK"
code_text not_implemented_code = "NOT_IMPLEMENTED"
code_text deprecated = "DEPRECATED"
code_text authorization_error_code = "AUTHORIZATION_ERROR"
code_text unauthorized = "UNAUTHORIZED"
code_text forbidden = "FORBIDDEN"
code_text unknown_error = "UNKNOWN_ERROR"
code_text internal_error = "INTERNAL_ERROR"

-- `details?.name`
abbrev field_of : String → Fields → Option String
field_of name [] = none
field_of name ((k, v) ∷ rest) = if k is name then v else field_of name rest

abbrev detail : String → Details → Option String
detail name undefined = none
detail name (fields fs) = field_of name fs
detail name (original_error e) = none

unfoldable pub create_from_code : ErrorCode → String → Details → StellarClientError
unfolding network_error contract_error transaction_error validation_error schema_error
    attestation_error cryptography_error configuration_error not_implemented_error
    authorization_error client_error
create_from_code network_error_code m d = network_error m d
create_from_code network_timeout m d = network_error m d
create_from_code network_unavailable m d = network_error m d
create_from_code contract_error_code m d =
    contract_error m (detail "contractId" d) (detail "method" d) d
create_from_code contract_not_found m d =
    contract_error m (detail "contractId" d) (detail "method" d) d
create_from_code contract_call_failed m d =
    contract_error m (detail "contractId" d) (detail "method" d) d
create_from_code transaction_error_code m d =
    transaction_error m (detail "txHash" d) (detail "status" d) d
create_from_code transaction_failed m d =
    transaction_error m (detail "txHash" d) (detail "status" d) d
create_from_code transaction_simulation_failed m d =
    transaction_error m (detail "txHash" d) (detail "status" d) d
create_from_code insufficient_funds m d =
    transaction_error m (detail "txHash" d) (detail "status" d) d
create_from_code validation_error_code m d =
    validation_error m (detail "field" d) (detail "value" d)
create_from_code invalid_address m d = validation_error m (detail "field" d) (detail "value" d)
create_from_code invalid_schema_uid m d = validation_error m (detail "field" d) (detail "value" d)
create_from_code invalid_attestation_uid m d =
    validation_error m (detail "field" d) (detail "value" d)
create_from_code invalid_signature m d = validation_error m (detail "field" d) (detail "value" d)
create_from_code invalid_input m d = validation_error m (detail "field" d) (detail "value" d)
create_from_code schema_error_code m d =
    schema_error m (detail "schemaUid" d) (detail "schemaName" d) d
create_from_code schema_not_found m d =
    schema_error m (detail "schemaUid" d) (detail "schemaName" d) d
create_from_code schema_already_exists m d =
    schema_error m (detail "schemaUid" d) (detail "schemaName" d) d
create_from_code schema_invalid_format m d =
    schema_error m (detail "schemaUid" d) (detail "schemaName" d) d
create_from_code attestation_error_code m d =
    attestation_error m (detail "attestationUid" d) (detail "schemaUid" d) d
create_from_code attestation_not_found m d =
    attestation_error m (detail "attestationUid" d) (detail "schemaUid" d) d
create_from_code attestation_already_exists m d =
    attestation_error m (detail "attestationUid" d) (detail "schemaUid" d) d
create_from_code attestation_expired m d =
    attestation_error m (detail "attestationUid" d) (detail "schemaUid" d) d
create_from_code attestation_revoked m d =
    attestation_error m (detail "attestationUid" d) (detail "schemaUid" d) d
create_from_code cryptography_error_code m d = cryptography_error m (detail "operation" d) d
create_from_code signature_verification_failed m d = cryptography_error m (detail "operation" d) d
create_from_code key_generation_failed m d = cryptography_error m (detail "operation" d) d
create_from_code configuration_error_code m d = configuration_error m (detail "missingField" d)
create_from_code missing_contract_id m d = configuration_error m (detail "missingField" d)
create_from_code invalid_network m d = configuration_error m (detail "missingField" d)
create_from_code not_implemented_code m d =
    not_implemented_error (text_or (detail "feature" d) "Unknown feature") (detail "plannedScope" d)
create_from_code authorization_error_code m d =
    authorization_error m (detail "requiredRole" d) (detail "currentRole" d)
create_from_code unauthorized m d =
    authorization_error m (detail "requiredRole" d) (detail "currentRole" d)
create_from_code forbidden m d =
    authorization_error m (detail "requiredRole" d) (detail "currentRole" d)
create_from_code deprecated m d = client_error m (code_text deprecated) d
create_from_code unknown_error m d = client_error m (code_text unknown_error) d
create_from_code internal_error m d = client_error m (code_text internal_error) d

-- What an operation throws: an error of these classes, or anything else.
pub data Thrown : Type 0 where
  client : StellarClientError → Thrown
  foreign : ForeignError → Thrown

-- `error?.message?.includes(needle)`
abbrev message_includes : ForeignError → String → Bool
message_includes e needle = elim e.message [ none ↦ false | some m ↦ includes m needle ]

abbrev code_is : ForeignError → String → Bool
code_is e c = elim e.code [ none ↦ false | some d ↦ d is c ]

-- `error?.message || String(error)`, behind the context where there is one.
abbrev wrapped_message : ForeignError → Option String → String
wrapped_message e none = text_or e.message e.as_text
wrapped_message e (some context) =
    if truthy context
    then context & ": " & text_or e.message e.as_text
    else text_or e.message e.as_text

unfoldable pub wrap : Thrown → Option String → StellarClientError
unfolding network_error transaction_error not_found_error authorization_error client_error
wrap (client e) context = e
wrap (foreign e) context =
    let message = wrapped_message e context in
    if code_is e "ECONNREFUSED" || code_is e "ETIMEDOUT"
    then network_error message (original_error e)
    else if message_includes e "insufficient funds"
    then transaction_error message none (some "INSUFFICIENT_FUNDS") (original_error e)
    else if message_includes e "not found"
    then not_found_error "Resource" none
    else if message_includes e "unauthorized" || message_includes e "forbidden"
    then authorization_error message none none
    else client_error message "UNKNOWN_ERROR" (original_error e)
