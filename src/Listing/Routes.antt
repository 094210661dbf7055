-- ===== src/Listing/Routes.antt =====
-- apps/horizon/src/router/registry.router.ts: the routes of attestations and schemas. Times are
-- numbers, a value is its JSON text. A key that only repeats another is left out of the records.
use Prim.Native.String.{String}
use attest_so.Prelude.{ℕ, ◌+◌, Bool, List, map, Option, none, some, length, ltb, ◌or_else◌, ◌is◌}
use attest_so.Registry.Store.{Attestation}
use attest_so.Registry.Schemas.{SchemaRow}
use attest_so.Registry.Transactions.{ContractTransaction}
use attest_so.Listing.Params.{
  LedgerParam, bad_ledger, limit_num, offset_num, ledger_param, first_given,
}
use attest_so.Listing.Queries.{
  Db, Page, AttestationFilters, get_attestations, get_attestation_by_uid,
  get_attestation_by_tx_hash, SchemaFilters, get_schemas, get_schema_by_uid, get_schema_by_tx_hash,
}

pub record ApiAttestation : Type 0 where
  pub uid : String
  pub schema_uid : String
  pub attester_address : String
  pub subject_address : Option String
  pub value : String
  pub created_at : Option ℕ
  pub revoked : Bool
  pub ledger : ℕ
  pub transaction_hash : String
  pub schema_encoding : String
  pub message : String
  pub revoked_at : Option ℕ

unfoldable pub transform_attestation_for_api : Attestation → ApiAttestation
transform_attestation_for_api r = record {
  uid = r.origin.attestation_uid;
  schema_uid = r.origin.schema_uid;
  attester_address = r.origin.attester_address;
  subject_address = r.origin.subject_address;
  value = r.origin.value or_else r.origin.message;
  created_at = r.origin.created_at;
  revoked = r.revoked;
  ledger = r.origin.ledger;
  transaction_hash = r.origin.transaction_hash;
  schema_encoding = r.origin.schema_encoding;
  message = r.origin.message;
  revoked_at = r.revoked_at;
}

pub record ApiSchema : Type 0 where
  pub uid : String
  pub ledger : ℕ
  pub schema_definition : String
  pub parsed_schema_definition : Option String
  pub resolver_address : Option String
  pub revocable : Bool
  pub deployer_address : String
  pub created_at : Option ℕ
  pub type : String
  pub transaction_hash : String

unfoldable pub transform_schema_for_api : SchemaRow → ApiSchema
transform_schema_for_api r = record {
  uid = r.uid;
  ledger = r.ledger;
  schema_definition = r.schema_definition;
  parsed_schema_definition = r.parsed_schema_definition;
  resolver_address = r.resolver_address;
  revocable = r.revocable;
  deployer_address = r.deployer_address;
  created_at = r.created_at;
  type = r.type;
  transaction_hash = r.transaction_hash;
}

pub record Listed (A : Type 0) : Type 0 where
  pub items : List A
  pub total : ℕ
  pub limit : ℕ
  pub offset : ℕ
  pub has_more : Bool

-- What a route answers: 400, 404 or 200.
pub data Response (A : Type 0) : Type 0 where
  bad_request not_found : String → Response A
  success : A → Response A

abbrev pub listed : {A : Type 0} → List A → ℕ → ℕ → ℕ → Listed A
listed rows total limit offset = record {
  items = rows;
  total = total;
  limit = limit;
  offset = offset;
  has_more = ltb (offset + length rows) total;
}

-- `String(flag) === 'true'`
abbrev flag_param : Option String → Option Bool
flag_param none = none
flag_param (some t) = some (t is "true")

pub record AttestationQuery : Type 0 where
  pub by_ledger : Option String
  pub ledger : Option String
  pub limit : Option String
  pub offset : Option String
  pub schema_uid_snake : Option String
  pub schema_uid : Option String
  pub attester : Option String
  pub subject : Option String
  pub revoked : Option String

abbrev pub attestation_filters : AttestationQuery → ℕ → ℕ → LedgerParam → AttestationFilters
attestation_filters q limit offset ledger = record {
  ledger = ledger;
  schema_uid = first_given q.schema_uid q.schema_uid_snake;
  attester_address = q.attester;
  subject_address = q.subject;
  revoked = flag_param q.revoked;
  limit = some limit;
  offset = some offset;
}

-- The handler, for what the repository answers to the filters.
unfoldable pub list_attestations_by :
    (AttestationFilters → Page Attestation) → AttestationQuery → Response (Listed ApiAttestation)
unfolding limit_num offset_num ledger_param
list_attestations_by get q = elim (limit_num q.limit) [
  | none ↦ bad_request "Invalid limit or offset parameters"
  | some limit ↦ elim (offset_num q.offset) [
    | none ↦ bad_request "Invalid limit or offset parameters"
    | some offset ↦ elim (ledger_param (first_given q.ledger q.by_ledger)) [
      | bad_ledger ↦ bad_request "Invalid ledger parameter. Must be a number."
      | ledger ↦
          let page = get (attestation_filters q limit offset ledger) in
          success (listed (map transform_attestation_for_api page.rows) page.total limit offset)
    ]
  ]
]

unfoldable pub list_attestations :
    Db Attestation → AttestationQuery → Response (Listed ApiAttestation)
list_attestations db q = list_attestations_by (get_attestations db) q

pub record SchemaQuery : Type 0 where
  pub by_ledger : Option String
  pub ledger : Option String
  pub limit : Option String
  pub offset : Option String
  pub deployer : Option String
  pub authority : Option String
  pub type : Option String
  pub context : Option String
  pub revocable : Option String

abbrev pub schema_filters : SchemaQuery → ℕ → ℕ → LedgerParam → SchemaFilters
schema_filters q limit offset ledger = record {
  ledger = ledger;
  deployer_address = first_given q.authority q.deployer;
  type = first_given q.context q.type;
  revocable = flag_param q.revocable;
  limit = some limit;
  offset = some offset;
}

-- The handler, for what the repository answers to the filters.
unfoldable pub list_schemas_by :
    (SchemaFilters → Page SchemaRow) → SchemaQuery → Response (Listed ApiSchema)
unfolding limit_num offset_num ledger_param
list_schemas_by get q = elim (limit_num q.limit) [
  | none ↦ bad_request "Invalid limit or offset parameters"
  | some limit ↦ elim (offset_num q.offset) [
    | none ↦ bad_request "Invalid limit or offset parameters"
    | some offset ↦ elim (ledger_param (first_given q.ledger q.by_ledger)) [
      | bad_ledger ↦ bad_request "Invalid ledger parameter. Must be a number."
      | ledger ↦
          let page = get (schema_filters q limit offset ledger) in
          success (listed (map transform_schema_for_api page.rows) page.total limit offset)
    ]
  ]
]

unfoldable pub list_schemas : Db SchemaRow → SchemaQuery → Response (Listed ApiSchema)
list_schemas db q = list_schemas_by (get_schemas db) q

abbrev pub found : {A B : Type 0} → String → (A → B) → Option A → Response B
found message f none = not_found message
found message f (some a) = success (f a)

unfoldable attestation_by_uid : Db Attestation → String → Response ApiAttestation
attestation_by_uid db uid =
    found "Attestation not found" transform_attestation_for_api (get_attestation_by_uid db uid)

unfoldable attestation_by_tx :
    Db ContractTransaction → Db Attestation → String → Response ApiAttestation
attestation_by_tx transactions db hash =
    found "Attestation not found for transaction hash" transform_attestation_for_api
      (get_attestation_by_tx_hash transactions db hash)

unfoldable schema_by_uid : Db SchemaRow → String → Response ApiSchema
schema_by_uid db uid = found "Schema not found" transform_schema_for_api (get_schema_by_uid db uid)

unfoldable schema_by_tx : Db ContractTransaction → Db SchemaRow → String → Response ApiSchema
schema_by_tx transactions db hash =
    found "Schema not found for transaction hash" transform_schema_for_api
      (get_schema_by_tx_hash transactions db hash)
