-- ===== src/Delegation/Messages.antt =====
-- packages/stellar-sdk/src/delegation.ts: requests, and the messages made of them. Buffers are lists
-- of bytes, a string that is only measured is the list of its UTF-16 code units, and a bigint is a
-- natural number. What the contract client answers is given: `none` where its call throws.
use Prim.Native.String.{String}
use attest_so.Prelude.{
  ℕ, List, [], ◌∷◌, ◌++◌, Option, none, some, length, ◌==◌, if◌then◌else◌, ◌>>=◌,
}
use attest_so.Delegation.Bytes.{write_u64_be}

-- A request without its signature.
pub record AttestationRequest : Type 0 where
  pub schema_uid : List ℕ
  pub subject : String
  pub attester : String
  pub value : List ℕ
  pub nonce : ℕ
  pub deadline : ℕ
  pub expiration_time : Option ℕ

pub record RevocationRequest : Type 0 where
  pub attestation_uid : List ℕ
  pub schema_uid : List ℕ
  pub subject : String
  pub revoker : String
  pub nonce : ℕ
  pub deadline : ℕ

unfoldable pub expiration_bytes : Option ℕ → Option (List ℕ)
expiration_bytes none = some []
expiration_bytes (some t) = write_u64_be t

-- `Buffer.concat(components)`; `none` where a number does not fit and its write throws.
unfoldable pub attest_bytes : AttestationRequest → List ℕ → Option (List ℕ)
attest_bytes request dst = do
  nonce ← write_u64_be request.nonce
  deadline ← write_u64_be request.deadline
  expiration ← expiration_bytes request.expiration_time
  value_length ← write_u64_be (length request.value)
  some (dst ++ (request.schema_uid ++ (nonce ++ (deadline ++ (expiration ++ value_length)))))

unfoldable pub revoke_bytes : RevocationRequest → List ℕ → Option (List ℕ)
revoke_bytes request dst = do
  nonce ← write_u64_be request.nonce
  deadline ← write_u64_be request.deadline
  some (dst ++ (request.attestation_uid ++ (nonce ++ deadline)))

-- `hash_to_curve` is `bls12_381.shortSignatures.hash(sha256(message))`.
module _ {Point : Type 0} (hash_to_curve : List ℕ → Point) where
  unfoldable create_attest_message : AttestationRequest → List ℕ → Option Point
  create_attest_message request dst = do
    message ← attest_bytes request dst
    some (hash_to_curve message)

  unfoldable create_revoke_message : RevocationRequest → List ℕ → Option Point
  create_revoke_message request dst = do
    message ← revoke_bytes request dst
    some (hash_to_curve message)

-- The tags that are used where the contract has none: "ATTEST_PROTOCOL_V1_DELEGATED" and
-- "REVOKE_PROTOCOL_V1_DELEGATED" in UTF-8.
abbrev default_attest_dst : List ℕ
default_attest_dst =
    65 ∷ 84 ∷ 84 ∷ 69 ∷ 83 ∷ 84 ∷ 95 ∷ 80 ∷ 82 ∷ 79 ∷ 84 ∷ 79 ∷ 67 ∷ 79 ∷ 76 ∷ 95 ∷ 86 ∷ 49 ∷ 95
    ∷ 68 ∷ 69 ∷ 76 ∷ 69 ∷ 71 ∷ 65 ∷ 84 ∷ 69 ∷ 68 ∷ []

abbrev default_revoke_dst : List ℕ
default_revoke_dst =
    82 ∷ 69 ∷ 86 ∷ 79 ∷ 75 ∷ 69 ∷ 95 ∷ 80 ∷ 82 ∷ 79 ∷ 84 ∷ 79 ∷ 67 ∷ 79 ∷ 76 ∷ 95 ∷ 86 ∷ 49 ∷ 95
    ∷ 68 ∷ 69 ∷ 76 ∷ 69 ∷ 71 ∷ 65 ∷ 84 ∷ 69 ∷ 68 ∷ []

unfoldable pub get_attest_dst : Option (List ℕ) → List ℕ
get_attest_dst none = default_attest_dst
get_attest_dst (some dst) = dst

unfoldable pub get_revoke_dst : Option (List ℕ) → List ℕ
get_revoke_dst none = default_revoke_dst
get_revoke_dst (some dst) = dst

pub record AttestParams : Type 0 where
  pub schema_uid : List ℕ
  pub subject : String
  pub attester : String
  pub value : List ℕ
  pub nonce : Option ℕ
  pub deadline : ℕ
  pub expiration_time : Option ℕ

record RevokeParams : Type 0 where
  pub attestation_uid : List ℕ
  pub schema_uid : List ℕ
  pub subject : String
  pub revoker : String
  pub nonce : Option ℕ
  pub deadline : ℕ

-- `params.expirationTime ? BigInt(params.expirationTime) : undefined`
abbrev pub expiration_of : Option ℕ → Option ℕ
expiration_of none = none
expiration_of (some t) = if t == 0 then none else some t

-- `attester_nonce` is what `getAttesterNonce` returns for an address.
unfoldable pub create_delegated_attestation_request :
    (String → Option ℕ) → AttestParams → Option AttestationRequest
create_delegated_attestation_request attester_nonce params = do
  nonce ← attester_nonce params.attester
  some (record {
    schema_uid = params.schema_uid;
    subject = params.subject;
    attester = params.attester;
    value = params.value;
    nonce = nonce;
    deadline = params.deadline;
    expiration_time = expiration_of params.expiration_time;
  })

unfoldable create_delegated_revocation_request :
    (String → Option ℕ) → RevokeParams → Option RevocationRequest
create_delegated_revocation_request attester_nonce params = do
  nonce ← attester_nonce params.revoker
  some (record {
    attestation_uid = params.attestation_uid;
    schema_uid = params.schema_uid;
    subject = params.subject;
    revoker = params.revoker;
    nonce = nonce;
    deadline = params.deadline;
  })
