-- ===== src/Core/Types.antt =====
-- packages/core/src/types.ts: errors, definitions and pages. A text is the list of its UTF-16 code
-- units, and `none` stands for undefined and for null, which the code does not tell apart.
use Prim.Native.String.{String}
use attest_so.Prelude.{ℕ, Bool, List, Option}

pub data AttestProtocolErrorType : Type 0 where
  network_error validation_error authorization_error not_found_error : AttestProtocolErrorType
  already_exists_error invalid_signature_error expired_error revoked_error : AttestProtocolErrorType
  unknown_error : AttestProtocolErrorType

pub record AttestProtocolError : Type 0 where
  pub type : AttestProtocolErrorType
  pub message : String
  pub details : Option String
  pub code : Option String

unfoldable pub create_attest_protocol_error :
    AttestProtocolErrorType → String → Option String → Option String → AttestProtocolError
create_attest_protocol_error type message details code = record {
  type = type;
  message = message;
  details = details;
  code = code;
}

pub record SchemaDefinition : Type 0 where
  pub name : Option (List ℕ)
  pub content : Option (List ℕ)

-- `number | string | null`, or undefined.
pub data ExpirationTime : Type 0 where
  no_time : ExpirationTime
  at_number : ℕ → ExpirationTime
  at_text : List ℕ → ExpirationTime

pub record AttestationDefinition : Type 0 where
  pub schema_uid : Option (List ℕ)
  pub subject : Option (List ℕ)
  pub data_text : Option (List ℕ)
  pub expiration_time : ExpirationTime

pub record RevocationDefinition : Type 0 where
  pub attestation_uid : Option (List ℕ)

pub record PaginatedResponse (T : Type 0) : Type 0 where
  pub items : List T
  pub total : ℕ
  pub limit : ℕ
  pub offset : ℕ
  pub has_more : Bool
