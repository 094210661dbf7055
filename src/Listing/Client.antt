-- ===== src/Listing/Client.antt =====
-- packages/stellar-sdk/src/utils/indexer.ts: the functions that read the lists of the indexer. What the
-- server answers to a query is given; `from_hex` is `Buffer.from(text, 'hex')`. Times are numbers.
use Prim.Native.String.{String}
use attest_so.Prelude.{
  ℕ, max, min, Bool, List, [], ◌∷◌, map, Option, none, some, ◌==◌, text_or, if◌then◌else◌, decimal,
  ◌&◌,
}
use attest_so.Listing.Routes.{ApiAttestation, ApiSchema, Listed, AttestationQuery, SchemaQuery}

pub record ContractAttestation : Type 0 where
  pub uid : List ℕ
  pub schema_uid : List ℕ
  pub subject : Option String
  pub attester : String
  pub value : String
  pub timestamp : Option ℕ
  pub revocation_time : Option ℕ
  pub revoked : Bool
  pub ledger : ℕ
  pub transaction_hash : String
  pub schema_encoding : String
  pub message : String

pub record ContractSchema : Type 0 where
  pub uid : List ℕ
  pub definition : String
  pub parsed_definition : Option String
  pub authority : String
  pub resolver : String
  pub revocable : Bool
  pub timestamp : Option ℕ
  pub ledger : ℕ
  pub type : String
  pub transaction_hash : String

-- What a request meets: an answer, an HTTP error, or none.
pub data Reply (A : Type 0) : Type 0 where
  replied : A → Reply A
  http_error : ℕ → String → Reply A
  unreachable : String → Reply A

-- The value of a call, or the message of the `NetworkError` that it throws.
pub data Fetched (A : Type 0) : Type 0 where
  got : A → Fetched A
  network_error : String → Fetched A

abbrev pub fetched : {A B : Type 0} → String → (A → B) → Reply A → Fetched B
fetched what f (replied a) = got (f a)
fetched what f (http_error status m) = network_error (what & m)
fetched what f (unreachable m) = network_error (what & m)

-- A 404 is no error: there is nothing of that name.
abbrev fetched_or_null : {A B : Type 0} → String → (A → B) → Reply A → Fetched (Option B)
fetched_or_null what f (replied a) = got (some (f a))
fetched_or_null what f (http_error status m) =
    if status == 404 then got none else network_error (what & m)
fetched_or_null what f (unreachable m) = network_error (what & m)

abbrev pub no_attestation_query : AttestationQuery
no_attestation_query = record {
  by_ledger = none;
  ledger = none;
  limit = none;
  offset = none;
  schema_uid_snake = none;
  schema_uid = none;
  attester = none;
  subject = none;
  revoked = none;
}

abbrev pub no_schema_query : SchemaQuery
no_schema_query = record {
  by_ledger = none;
  ledger = none;
  limit = none;
  offset = none;
  deployer = none;
  authority = none;
  type = none;
  context = none;
  revocable = none;
}

record ListPage (A : Type 0) : Type 0 where
  pub items : List A
  pub total : ℕ
  pub has_more : Bool

pub record RegistryDump : Type 0 where
  pub schemas : List ContractSchema
  pub attestations : List ContractAttestation
  pub timestamp : ℕ
  pub ledger : ℕ

abbrev page_of : {A B : Type 0} → (A → B) → Listed A → ListPage B
page_of f l = record { items = map f l.items; total = l.total; has_more = l.has_more }

-- The limit that is sent: at most 100.
abbrev limit_text : ℕ → Option String
limit_text limit = some (decimal (min limit 100))

abbrev pub largest_ledger : List ApiAttestation → ℕ
largest_ledger [] = 0
largest_ledger (a ∷ rest) = max a.ledger (largest_ledger rest)

module _ (from_hex : String → List ℕ) where
  unfoldable pub transform_attestation : ApiAttestation → ContractAttestation
  transform_attestation a = record {
    uid = from_hex a.uid;
    schema_uid = from_hex a.schema_uid;
    subject = a.subject_address;
    attester = a.attester_address;
    value = a.value;
    timestamp = a.created_at;
    revocation_time = a.revoked_at;
    revoked = a.revoked;
    ledger = a.ledger;
    transaction_hash = a.transaction_hash;
    schema_encoding = a.schema_encoding;
    message = a.message;
  }

  -- The server's rows have a uid, so that the test for it does not fail.
  unfoldable pub transform_schema : ApiSchema → ContractSchema
  transform_schema s = record {
    uid = from_hex s.uid;
    definition = text_or (some s.schema_definition) (text_or s.parsed_schema_definition "");
    parsed_definition = s.parsed_schema_definition;
    authority = s.deployer_address;
    resolver = text_or s.resolver_address "";
    revocable = s.revocable;
    timestamp = s.created_at;
    ledger = s.ledger;
    type = s.type;
    transaction_hash = s.transaction_hash;
  }

  module _ (attestations : AttestationQuery → Reply (Listed ApiAttestation))
      (schemas : SchemaQuery → Reply (Listed ApiSchema)) where
    unfoldable fetch_attestations_by_ledger : ℕ → ℕ → Fetched (List ContractAttestation)
    fetch_attestations_by_ledger ledger limit =
        fetched "Failed to fetch attestations by ledger: " (λ l. map transform_attestation l.items)
          (attestations (record no_attestation_query {
            by_ledger = some (decimal ledger);
            limit = limit_text limit;
          }))

    unfoldable fetch_schemas_by_ledger : ℕ → ℕ → Fetched (List ContractSchema)
    fetch_schemas_by_ledger ledger limit =
        fetched "Failed to fetch schemas by ledger: " (λ l. map transform_schema l.items)
          (schemas (record no_schema_query {
            by_ledger = some (decimal ledger);
            limit = limit_text limit;
          }))

    unfoldable fetch_attestations_by_wallet : String → ℕ → Fetched (ListPage ContractAttestation)
    fetch_attestations_by_wallet wallet limit =
        fetched "Failed to fetch attestations by wallet: " (page_of transform_attestation) (
          attestations
            (record no_attestation_query { attester = some wallet; limit = limit_text limit }))

    unfoldable fetch_schemas_by_wallet : String → ℕ → Fetched (ListPage ContractSchema)
    fetch_schemas_by_wallet wallet limit =
        fetched "Failed to fetch schemas by wallet: " (page_of transform_schema)
          (schemas (record no_schema_query { deployer = some wallet; limit = limit_text limit }))

    unfoldable fetch_latest_attestations : ℕ → Fetched (List ContractAttestation)
    fetch_latest_attestations limit =
        fetched "Failed to fetch latest attestations: " (λ l. map transform_attestation l.items)
          (attestations (record no_attestation_query { limit = limit_text limit }))

    unfoldable fetch_latest_schemas : ℕ → Fetched (List ContractSchema)
    fetch_latest_schemas limit =
        fetched "Failed to fetch latest schemas: " (λ l. map transform_schema l.items)
          (schemas (record no_schema_query { limit = limit_text limit }))

    unfoldable pub fetch_registry_dump : ℕ → Fetched RegistryDump
    fetch_registry_dump now = elim (schemas (record no_schema_query { limit = some "1000" })) [
      | http_error status m ↦ network_error ("Failed to fetch registry dump: " & m)
      | unreachable m ↦ network_error ("Failed to fetch registry dump: " & m)
      | replied s ↦
          fetched "Failed to fetch registry dump: "
            (λ a. record {
              schemas = map transform_schema s.items;
              attestations = map transform_attestation a.items;
              timestamp = now;
              ledger = largest_ledger a.items;
            })
            (attestations (record no_attestation_query { limit = some "1000" }))
    ]

  unfoldable get_attestation : Reply ApiAttestation → Fetched (Option ContractAttestation)
  get_attestation reply =
      fetched_or_null "Failed to get attestation by UID: " transform_attestation reply

  unfoldable get_schema : Reply ApiSchema → Fetched (Option ContractSchema)
  get_schema reply = fetched_or_null "Failed to get schema by UID: " transform_schema reply
