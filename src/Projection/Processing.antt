-- ===== src/Projection/Processing.antt =====
-- apps/horizon/src/repository/ingest.repository.ts and backfill.repository.ts: the processing of one
-- event. The tables are given with their laws, and so are the answers of the node and of Horizon, what
-- the database accepts, and what it finds by the hash of a transaction.
use Prim.Native.String.{String}
use attest_so.Prelude.{
  ℕ, Bool, true, false, List, Option, none, some, text_or, ◌or_text◌, ◌is◌, truthy, if◌then◌else◌,
}
use attest_so.Storage.{Table, put}
use attest_so.Ingest.Events.{EventData}
use attest_so.Ingest.Recurring.{EventOutcome}
use attest_so.Registry.Store.{AttestationStore}
use attest_so.Registry.Attestations.{project_create, project_revoke}
use attest_so.Registry.Schemas.{SchemaData, SchemaRow, single_upsert_schema}
use attest_so.Registry.Transactions.{ContractTransaction, upsert_contract_transaction}
use attest_so.Operations.Types.{OperationRow}
use attest_so.Operations.Rows.{HorizonReply, process_operations_for_event}
use attest_so.Backfill.Loop.{EventProcessor}
use attest_so.Projection.Values.{
  Native, undefined_value, null_value, flag, number, big, text, bytes, json_bytes, array, object,
  Natives,
}
use attest_so.Projection.Rows.{
  TxDetails, EventRow, TransactionRow, of_details, event_row, transaction_row,
}
use attest_so.Projection.Decoding.{
  Codec, item, OpParam, is_true, registered_schema, created_attestation, revoked_attestation,
  revoked_at_of,
}

-- The tables that the processing of an event writes.
pub record Tables : Type 1 where
  pub operations : Table OperationRow
  pub transactions : Table TransactionRow
  pub events : Table EventRow
  pub actions : Table ContractTransaction
  pub schemas : Table SchemaRow
  pub attestations : AttestationStore

module _ (tables : Tables) where
  -- What they hold.
  pub record Database : Type 0 where
    pub operations : tables.operations.State
    pub transactions : tables.transactions.State
    pub events : tables.events.State
    pub actions : tables.actions.State
    pub schemas : tables.schemas.State
    pub attestations : tables.attestations.State

  -- What the processing meets. `first_operation` is the operation of a transaction with the lowest
  -- index; `op_params` are the decoded parameters of the first one; `xdr_source` is the account in an
  -- envelope; `texts` are the texts of the elements of an event's value.
  pub record World : Type 0 where
    pub contract_ids : List String
    pub now : ℕ
    pub fetch_transaction : String → Option TxDetails
    pub horizon : String → HorizonReply
    pub first_operation : String → tables.operations.State → Option OperationRow
    pub op_params : String → tables.operations.State → List OpParam
    pub xdr_source : String → Option String
    pub native_of : String → Native
    pub texts : Native → Option (List String)
    pub parse_time : String → ℕ
    pub codec : Codec
    pub accepts_operation : OperationRow → Bool
    pub accepts_transaction : TransactionRow → Bool
    pub accepts_event : EventRow → Bool
    pub accepts_action : ContractTransaction → Bool
    pub accepts_schema : SchemaData → Bool
    pub accepts_attestation : String → Bool
    pub refusal : String

  unfoldable pub process_transaction_for_event :
      World → String → tables.transactions.State → tables.transactions.State × Bool
  process_transaction_for_event w hash s = elim (w.fetch_transaction hash) [
    | none ↦ (s, false)
    | some d ↦
        let row = transaction_row hash w.now d in
        if w.accepts_transaction row then (put tables.transactions hash row s, true) else (s, false)
  ]

  abbrev account_of : Option OperationRow → Option String
  account_of none = none
  account_of (some o) = some o.source_account

  -- The account in the envelope, if the details have one.
  abbrev envelope_account : World → Option String → Option String
  envelope_account w none = none
  envelope_account w (some xdr) = if truthy xdr then w.xdr_source xdr else none

  -- The account that an action is attributed to.
  unfoldable pub source_account : World → Option OperationRow → Option TxDetails → String
  source_account w op d =
      text_or
        (account_of op
          or_text of_details (λ t. t.source_account) d
          or_text envelope_account w (of_details (λ t. t.envelope_xdr) d))
        ""

  abbrev operation_id_of : Option OperationRow → Option String
  operation_id_of none = none
  operation_id_of (some o) = if truthy o.operation_id then some o.operation_id else none

  unfoldable pub action_of :
      World → EventData → Option OperationRow → Option TxDetails → ContractTransaction
  action_of w e op d = record {
    event_id = e.event_id;
    action = e.event_type;
    transaction_hash = e.transaction_hash;
    timestamp = w.parse_time e.timestamp;
    source_account = source_account w op d;
    contract_id = e.contract_id;
    operation_id = operation_id_of op;
    ledger = some e.ledger;
    metadata = w.texts (w.native_of e.event_data);
  }

  -- `Array.isArray(value)`
  abbrev pub elements : Native → Option Natives
  elements (array vs) = some vs
  elements undefined_value = none
  elements null_value = none
  elements (flag b) = none
  elements (number n) = none
  elements (big n) = none
  elements (text t) = none
  elements (bytes bs) = none
  elements (json_bytes bs) = none
  elements (object fs) = none

  -- The projections of the three kinds of events; each changes one table.
  unfoldable pub project_schema :
      World → EventData → Option TxDetails → Natives → Database → Database
  project_schema w e d vals db =
      let time = w.parse_time e.timestamp in
      elim (registered_schema w.codec e time (of_details (λ t. t.source_account) d)
        (w.op_params e.transaction_hash db.operations) vals) [
          | none ↦ db
          | some schema ↦ record db {
            schemas =
                (single_upsert_schema tables.schemas true (w.accepts_schema schema) w.now schema
                  db.schemas).0;
          }
        ]

  unfoldable pub project_attestation : World → EventData → Natives → Database → Database
  project_attestation w e vals db =
      let info =
        created_attestation w.codec e (w.parse_time e.timestamp)
          (w.op_params e.transaction_hash db.operations) vals in
      record db {
        attestations =
            project_create tables.attestations true (w.accepts_attestation info.attestation_uid)
              w.now info db.attestations;
      }

  unfoldable pub project_revocation : World → EventData → Natives → Database → Database
  project_revocation w e vals db =
      let info = revoked_attestation w.codec e (w.parse_time e.timestamp) vals in
      record db {
        attestations =
            project_revoke tables.attestations true (w.accepts_attestation info.attestation_uid)
              w.now info (is_true (item vals 4)) (revoked_at_of (item vals 5)) db.attestations;
      }

  unfoldable pub project : World → EventData → Option TxDetails → Database → Database
  project w e d db = elim (elements (w.native_of e.event_data)) [
    | none ↦ db
    | some vals ↦
        if e.event_type is "SCHEMA:REGISTER"
        then project_schema w e d vals db
        else if e.event_type is "ATTEST:CREATE"
        then project_attestation w e vals db
        else if e.event_type is "ATTEST:REVOKE"
        then project_revocation w e vals db
        else db
  ]

  abbrev pub details_for : World → EventData → Option TxDetails
  details_for w e =
      if truthy e.transaction_hash then w.fetch_transaction e.transaction_hash else none

  -- The row of the event, which the database may refuse; then its action and its projection, whose
  -- errors are swallowed.
  unfoldable pub upsert_event_individually :
      World → EventData → Option String → Database → Database × Option String
  upsert_event_individually w e operation_id db =
      let d = details_for w e in
      let row = event_row e (w.parse_time e.timestamp) operation_id d in
      let op = w.first_operation e.transaction_hash db.operations in
      let action = action_of w e op d in
      if w.accepts_event row
      then (
        project w e d (record db {
          events = put tables.events e.event_id row db.events;
          actions =
              (upsert_contract_transaction tables.actions true (w.accepts_action action) action
                db.actions).0;
        }),
        none,
      )
      else (db, some w.refusal)

  -- The body of the loop over the events.
  unfoldable pub process_event : World → EventData → Database → Database × EventOutcome
  process_event w e db =
      let (ops, count) =
        process_operations_for_event tables.operations w.accepts_operation w.contract_ids
          (w.horizon e.transaction_hash) db.operations in
      let operation_id = operation_id_of (w.first_operation e.transaction_hash ops) in
      let (txs, stored) =
        if truthy e.transaction_hash
        then process_transaction_for_event w e.transaction_hash db.transactions
        else (db.transactions, false) in
      let (after, error) =
        upsert_event_individually w e operation_id
          (record db { operations = ops; transactions = txs }) in
      (after, record { operations = count; transaction_stored = stored; error = error })

  -- The processing of an event as the loops of the ingestions use it.
  abbrev pub processor : World → EventProcessor
  processor w = record { Tables = Database; process = process_event w }
