-- ===== src/Projection/Examples.antt =====
-- Events of the registry at concrete tables, and the theorems at them.
use Prim.Native.String.{String}
use attest_so.Prelude.{
  ℕ, ◌≡◌, refl, true, false, List, [], ◌∷◌, map, none, All, ◌is◌, if◌then◌else◌, arith,
}
use attest_so.Storage.Rows.{rows_table}
use attest_so.Ingest.Events.{EventData}
use attest_so.Ingest.Recurring.{Tally}
use attest_so.Backfill.Loop.{settle_event, process_events}
use attest_so.Operations.Types.{OperationRow}
use attest_so.Operations.Rows.{records}
use attest_so.Registry.Schemas.{SchemaRow, single_upsert_schema}
use attest_so.Registry.Store.{Attestation}
use attest_so.Registry.Transactions.{ContractTransaction}
use attest_so.Projection.Values.{
  Native, null_value, flag, bytes, array, object, natives_end, native_item, fields_end, field_entry,
  to_hex, hex_digit, convert_buffers_to_hex, buffer_to_hex,
}
use attest_so.Projection.Hex.{from_hex, uid_round_trip}
use attest_so.Projection.Rows.{EventRow, TransactionRow, event_row}
use attest_so.Projection.Decoding.{Codec, item, schema_uid_of, registered_schema}
use attest_so.Projection.Processing.{
  Tables, Database, World, project_schema, project, upsert_event_individually, process_event,
  processor,
}
use attest_so.Projection.Storing.{ProjectsOne, project-ProjectsOne}
use attest_so.Projection.Accounting.{IsAccounted, process_events-account}

abbrev no_base64 : String → List ℕ
no_base64 t = []

abbrev tables : Tables
tables = record {
  operations = rows_table OperationRow;
  transactions = rows_table TransactionRow;
  events = rows_table EventRow;
  actions = rows_table ContractTransaction;
  schemas = rows_table SchemaRow;
  attestations = rows_table Attestation;
}

abbrev empty : Database tables
empty = record {
  operations = [];
  transactions = [];
  events = [];
  actions = [];
  schemas = [];
  attestations = [];
}

abbrev codec : Codec
codec = record {
  from_base64 = no_base64;
  stringify = λ v. "{}";
  parse_json = λ t. none;
  parse_schema_definition = λ t. none;
}

abbrev registered : Native
registered = array (
    native_item (bytes (171 ∷ 205 ∷ []))
      (native_item (object (field_entry "revocable" (flag false) fields_end)) natives_end))

-- A node that knows no transactions; the database refuses the event `e2`.
abbrev world : World tables
world = record {
  contract_ids = "CA" ∷ [];
  now = 5000;
  fetch_transaction = λ h. none;
  horizon = λ h. records [];
  first_operation = λ h s. none;
  op_params = λ h s. [];
  xdr_source = λ x. none;
  native_of = λ t. if t is "schema" then registered else null_value;
  texts = λ v. none;
  parse_time = λ t. 1000;
  codec = codec;
  accepts_operation = λ r. true;
  accepts_transaction = λ r. true;
  accepts_event = λ r. if r.event_id is "e2" then false else true;
  accepts_action = λ a. true;
  accepts_schema = λ s. true;
  accepts_attestation = λ u. true;
  refusal = "unique constraint";
}

abbrev event : String → String → String → EventData
event id type value = record {
  event_id = id;
  ledger = 7;
  contract_id = "CA";
  event_type = type;
  event_data = value;
  timestamp = "2025-01-01T00:00:00Z";
  transaction_hash = "h";
}

abbrev two_events : List EventData
two_events = event "e1" "SCHEMA:REGISTER" "schema" ∷ event "e2" "ATTEST:CREATE" "none" ∷ []

abbrev nothing_yet : Tally
nothing_yet = record {
  events_processed = 0;
  operations_processed = 0;
  transactions_processed = 0;
  processed_up_to_ledger = 0;
  errors = [];
}

uid_round_trip_example :
    (buffer_to_hex no_base64 (convert_buffers_to_hex (bytes (171 ∷ 205 ∷ [])))
      ≡ buffer_to_hex no_base64 (bytes (171 ∷ 205 ∷ [])))
    × (from_hex (buffer_to_hex no_base64 (bytes (171 ∷ 205 ∷ []))) ≡ 171 ∷ 205 ∷ [])
uid_round_trip_example = uid_round_trip no_base64 (171 ∷ 205 ∷ []) (omega arith, (omega arith, tt))

project-ProjectsOne_example :
    let e = event "e1" "SCHEMA:REGISTER" "schema" in
    ProjectsOne tables (world.native_of e.event_data) e empty (project tables world e none empty)
project-ProjectsOne_example =
    project-ProjectsOne tables world (event "e1" "SCHEMA:REGISTER" "schema") none empty

process_events-account_example :
    let (t', db') = process_events (processor tables world) two_events nothing_yet empty in
    All (IsAccounted tables world t' db') two_events
process_events-account_example = process_events-account tables world two_events nothing_yet empty

-- The uid of the schema is the key of its row; the refused event leaves an error.
stored_and_refused :
    let (t', db') = process_events (processor tables world) two_events nothing_yet empty in
    (map (λ r. r.0) db'.schemas ≡ "abcd" ∷ [])
    × (map (λ r. r.0) db'.events ≡ "e1" ∷ [])
    × (t'.errors ≡ "Error processing event e2: unique constraint" ∷ [])
unfolding process_events settle_event process_event upsert_event_individually event_row project
    project_schema registered_schema schema_uid_of buffer_to_hex item to_hex hex_digit
    single_upsert_schema
stored_and_refused = (refl, refl, refl)
