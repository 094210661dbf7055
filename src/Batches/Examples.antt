-- ===== src/Batches/Examples.antt =====
-- A batch with one transaction, and the theorem at it.
use Prim.Native.String.{String}
use attest_so.Prelude.{
  length, Option, ◌≡◌, refl, Bool, true, false, List, [], ◌∷◌, none, some, map, ◌is◌, if◌then◌else◌,
}
use attest_so.Storage.{Table}
use attest_so.Storage.Upserts.{row_after}
use attest_so.Storage.Rows.{rows_table}
use attest_so.Projection.Values.{undefined_value}
use attest_so.Batches.Types.{
  ItemEvent, EventItem, StoredTransaction, StoredEvent, ledger_number, ledger_text, no_ledger,
}
use attest_so.Batches.Rows.{no_details, hash_of, reference_of, stored_event}
use attest_so.Batches.Events.{
  EventTables, EventDatabase, BatchSetting, Write, write_transaction, write_event, first_write,
  second_writes, writes_of, write, run_writes, store_batch_of_events,
}
use attest_so.Batches.Transactions.{
  TransactionData, TransactionSetting, no_flag, flag_text, incoming, updated_incoming,
  upsert_incoming, transactions_loop, transaction_batches, store_transactions_in_db,
}
use attest_so.Batches.Runs.{accepted_rows, upsert_of, store_transactions_in_db_lem}
use attest_so.Batches.References.{RefersToStored, store_batch-RefersToStored}

abbrev tables : EventTables
tables = record { transactions = rows_table StoredTransaction; events = rows_table StoredEvent }

abbrev empty : EventDatabase tables
empty = record { transactions = []; events = [] }

abbrev event : String → ItemEvent
event id = record {
  id = id;
  ledger = ledger_number 7;
  timestamp = none;
  ledger_closed_at = none;
  tx_hash = some "h";
  contract_id = none;
  type = none;
  event_type = none;
  data_value = undefined_value;
  topic = undefined_value;
  value = undefined_value;
  paging_token = undefined_value;
  in_successful_contract_call = undefined_value;
}

-- The second event has no details.
abbrev batch : List EventItem
batch =
    record {
      event = event "e1";
      transaction_details = some (record no_details { hash = some "h" });
      transaction = none;
    }
    ∷ record { event = event "e2"; transaction_details = none; transaction = none }
    ∷ []

abbrev setting : BatchSetting
setting = record { parse_time = λ t. 1000; now = 5000; accepts = λ s. true }

store_batch-RefersToStored_example :
    RefersToStored tables (store_batch_of_events tables setting true batch empty).0
unfolding hash_of reference_of
store_batch-RefersToStored_example =
    store_batch-RefersToStored tables setting true batch empty
      ((λ h e. e), ((λ h e. absurd (cc e)), tt)) (λ key row h found e. absurd (cc found))

-- The event without details is written first, and refers to nothing.
order_of_writes :
    let (after, stored) = store_batch_of_events tables setting true batch empty in
    (map (λ r. r.0) after.events ≡ "e2" ∷ "e1" ∷ [])
    × (map (λ r. r.1.tx_hash) after.events ≡ none ∷ some "h" ∷ [])
    × (stored ≡ true)
unfolding store_batch_of_events writes_of first_write second_writes hash_of reference_of run_writes
    write stored_event
order_of_writes = (refl, refl, refl)

-- A database that refuses one event keeps nothing of the batch.
abbrev refuses_e1 : Write → Bool
refuses_e1 (write_transaction key row) = true
refuses_e1 (write_event key row) = if key is "e1" then false else true

rolled_back :
    store_batch_of_events tables (record setting { accepts = refuses_e1 }) true batch empty
    ≡ (empty, false)
unfolding store_batch_of_events writes_of first_write second_writes hash_of reference_of run_writes
    write
rolled_back = refl

-- Two transactions of one hash, and one without.
abbrev transaction : String → Option String → TransactionData
transaction hash fee = record {
  hash = some hash;
  tx_hash = none;
  ledger = ledger_text "12";
  created_at = none;
  timestamp = none;
  source_account = none;
  source_account_snake = some "GA";
  fee = none;
  fee_charged = some "100";
  operation_count = no_ledger;
  operation_count_snake = ledger_number 2;
  envelope_xdr = none;
  envelope = none;
  result_xdr = none;
  result = none;
  result_meta_xdr = none;
  meta = none;
  fee_bump = no_flag;
  successful = no_flag;
  status = flag_text "success";
  memo = none;
  memo_type = none;
  memo_type_snake = none;
  inclusion_fee = fee;
  resource_fee = none;
  soroban_resource_usage = none;
}

abbrev three : List TransactionData
three = transaction "h" (some "7") ∷ transaction "" none ∷ transaction "h" none ∷ []

abbrev accepting : TransactionSetting
accepting = record { parse_date = λ t. none; now = 5000; accepts = λ r. true }

abbrev stored_table : Table StoredTransaction
stored_table = rows_table StoredTransaction

store_transactions_in_db_lem_example :
    let rows = accepted_rows accepting three in
    let (s', n) = store_transactions_in_db stored_table accepting true three [] in
    (stored_table.find "h" s' ≡ row_after "h" (stored_table.find "h" []) (map upsert_of rows))
    × (n ≡ length rows)
store_transactions_in_db_lem_example =
    store_transactions_in_db_lem stored_table accepting three "h" []

-- The fee that the second one does not give stays.
the_fee_stays :
    let (s', n) = store_transactions_in_db stored_table accepting true three [] in
    (map (λ r. r.1.inclusion_fee) s' ≡ some "7" ∷ []) × (n ≡ 2)
unfolding store_transactions_in_db transaction_batches transactions_loop upsert_incoming incoming
    updated_incoming
the_fee_stays = (refl, refl)
