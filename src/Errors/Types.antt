-- ===== src/Errors/Types.antt =====
-- packages/stellar-sdk/src/common/errors.ts: the error classes and their constructors. Time stamps
-- and stack traces are left out.
use Prim.Native.String.{String}
use attest_so.Prelude.{
  ℕ, List, [], ◌∷◌, Option, none, some, truthy, if◌then◌else◌, ◌&◌, decimal, ◌==◌,
}

-- The class that an object was made by, as `instanceof` sees it.
pub data ErrorClass : Type 0 where
  stellar_client network contract transaction validation schema attestation : ErrorClass
  cryptography configuration not_implemented not_found authorization timeout : ErrorClass
  rate_limit horizon : ErrorClass

-- An object with text fields, of which some may be undefined.
abbrev pub Fields : Type 0
Fields = List (String × Option String)

-- What is thrown by code that does not use these classes.
pub record ForeignError : Type 0 where
  pub code : Option String
  pub message : Option String
  pub as_text : String

pub data Details : Type 0 where
  undefined : Details
  fields : Fields → Details
  original_error : ForeignError → Details

pub record StellarClientError : Type 0 where
  pub class : ErrorClass
  pub message : String
  pub code : String
  pub details : Details
  pub own : Fields

unfoldable pub client_error : String → String → Details → StellarClientError
client_error message code details = record {
  class = stellar_client;
  message = message;
  code = code;
  details = details;
  own = [];
}

unfoldable pub network_error : String → Details → StellarClientError
network_error message details = record {
  class = network;
  message = message;
  code = "NETWORK_ERROR";
  details = details;
  own = [];
}

unfoldable pub contract_error :
    String → Option String → Option String → Details → StellarClientError
contract_error message contract_id method details = record {
  class = contract;
  message = message;
  code = "CONTRACT_ERROR";
  details = details;
  own = ("contractId", contract_id) ∷ ("method", method) ∷ [];
}

unfoldable pub transaction_error :
    String → Option String → Option String → Details → StellarClientError
transaction_error message tx_hash status details = record {
  class = transaction;
  message = message;
  code = "TRANSACTION_ERROR";
  details = details;
  own = ("txHash", tx_hash) ∷ ("status", status) ∷ [];
}

unfoldable pub validation_error : String → Option String → Option String → StellarClientError
validation_error message field value = record {
  class = validation;
  message = message;
  code = "VALIDATION_ERROR";
  details = fields (("field", field) ∷ ("value", value) ∷ []);
  own = ("field", field) ∷ ("value", value) ∷ [];
}

unfoldable pub schema_error : String → Option String → Option String → Details → StellarClientError
schema_error message schema_uid schema_name details = record {
  class = schema;
  message = message;
  code = "SCHEMA_ERROR";
  details = details;
  own = ("schemaUid", schema_uid) ∷ ("schemaName", schema_name) ∷ [];
}

unfoldable pub attestation_error :
    String → Option String → Option String → Details → StellarClientError
attestation_error message attestation_uid schema_uid details = record {
  class = attestation;
  message = message;
  code = "ATTESTATION_ERROR";
  details = details;
  own = ("attestationUid", attestation_uid) ∷ ("schemaUid", schema_uid) ∷ [];
}

unfoldable pub cryptography_error : String → Option String → Details → StellarClientError
cryptography_error message operation details = record {
  class = cryptography;
  message = message;
  code = "CRYPTOGRAPHY_ERROR";
  details = details;
  own = ("operation", operation) ∷ [];
}

unfoldable pub configuration_error : String → Option String → StellarClientError
configuration_error message missing_field = record {
  class = configuration;
  message = message;
  code = "CONFIGURATION_ERROR";
  details = fields (("missingField", missing_field) ∷ []);
  own = ("missingField", missing_field) ∷ [];
}

-- A part of a message that stands there only for a given text that is not empty.
abbrev part_of : String → Option String → String → String
part_of before none after = ""
part_of before (some t) after = if truthy t then before & t & after else ""

unfoldable pub not_implemented_error : String → Option String → StellarClientError
not_implemented_error feature planned_scope = record {
  class = not_implemented;
  message =
      "Feature '"
      & feature
      & "' is not yet implemented"
      & part_of " (planned for " planned_scope ")";
  code = "NOT_IMPLEMENTED";
  details = fields (("feature", some feature) ∷ ("plannedScope", planned_scope) ∷ []);
  own = ("feature", some feature) ∷ [];
}

unfoldable pub not_found_error : String → Option String → StellarClientError
not_found_error resource_type resource_id = record {
  class = not_found;
  message = resource_type & part_of " with ID '" resource_id "'" & " not found";
  code = "NOT_FOUND";
  details = fields (("resourceType", some resource_type) ∷ ("resourceId", resource_id) ∷ []);
  own = ("resourceType", some resource_type) ∷ ("resourceId", resource_id) ∷ [];
}

unfoldable pub authorization_error : String → Option String → Option String → StellarClientError
authorization_error message required_role current_role = record {
  class = authorization;
  message = message;
  code = "AUTHORIZATION_ERROR";
  details = fields (("requiredRole", required_role) ∷ ("currentRole", current_role) ∷ []);
  own = ("requiredRole", required_role) ∷ ("currentRole", current_role) ∷ [];
}

abbrev after_ms : Option ℕ → String
after_ms none = ""
after_ms (some n) = if n == 0 then "" else " after " & decimal n & "ms"

abbrev number_text : Option ℕ → Option String
number_text none = none
number_text (some n) = some (decimal n)

unfoldable timeout_error : String → Option ℕ → StellarClientError
timeout_error operation timeout_ms = record {
  class = timeout;
  message = "Operation '" & operation & "' timed out" & after_ms timeout_ms;
  code = "TIMEOUT_ERROR";
  details = fields (("operation", some operation) ∷ ("timeoutMs", number_text timeout_ms) ∷ []);
  own = ("operation", some operation) ∷ ("timeoutMs", number_text timeout_ms) ∷ [];
}

unfoldable rate_limit_error : String → Option ℕ → StellarClientError
rate_limit_error message retry_after = record {
  class = rate_limit;
  message = message;
  code = "RATE_LIMIT_ERROR";
  details = fields (("retryAfter", number_text retry_after) ∷ []);
  own = ("retryAfter", number_text retry_after) ∷ [];
}

unfoldable horizon_error : String → Option ℕ → Option String → Details → StellarClientError
horizon_error message status_code endpoint details = record {
  class = horizon;
  message = message;
  code = "HORIZON_ERROR";
  details = details;
  own = ("statusCode", number_text status_code) ∷ ("endpoint", endpoint) ∷ [];
}
