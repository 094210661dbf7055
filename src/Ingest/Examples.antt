-- ===== src/Ingest/Examples.antt =====
-- Calls of the ingestion in apps/horizon/src/repository, and the theorems at such calls.
use Prim.Native.String.{String}
use mathlib.Core.List.{Perm}
use attest_so.Prelude.{
  ℕ, zero, suc, ◌+◌, ◌≤◌, ◌≡◌, ◌≢◌, refl, true, List, [], ◌∷◌, none, some, length, arith,
}
use attest_so.Ingest.Cycle.{
  RpcEvent, turn, on_events, on_empty, advance, Rpc, EventsReply, fetch_failed, page, out_of_fuel,
  run_cycle,
}
use attest_so.Ingest.Call.{
  Setting, new_cycle, max_rounds, run_call, checkpoint, fetch_and_store_events,
}
use attest_so.Ingest.Checkpoint.{AccountsFor, cycle_ends, fetch_and_store_events_accounts}
use attest_so.Ingest.Restart.{next_start, empty_range_goes_back}
use attest_so.Ingest.Events.{
  RawEvent, EventData, parse_event_data, decode_all, parse_all, ordered_events,
}
use attest_so.Ingest.Ordering.{ordered_events-perm}
use attest_so.Ingest.Recurring.{RecurringSetting, got, answered, ingest_events, checked_up_to}
use attest_so.Ingest.Tallies.{ingest_events_accounts}

abbrev event_at : ℕ → RpcEvent
event_at n = record { id = "e"; ledger = n; tx_hash = some "h" }

-- The first request is answered by two events and a cursor, the second by nothing.
abbrev answer : ℕ → EventsReply
answer zero = fetch_failed "no such request"
answer (suc zero) = page (event_at 101 ∷ event_at 102 ∷ []) (some "c")
answer (suc (suc n)) = page [] none

abbrev two_pages : Rpc
two_pages = record { get_events = λ n r. answer n; get_transaction = λ h. some "details" }

abbrev no_events : Rpc
no_events = record { get_events = λ n r. page [] none; get_transaction = λ h. none }

abbrev setting : Rpc → Setting
setting rpc = record {
  connected = true;
  contract_ids = "CA" ∷ [];
  latest_ledger = some 200;
  rpc_error_message = "";
  readable = true;
  writable = true;
  rpc = rpc;
}

two_events_are_stored : (fetch_and_store_events (setting two_pages) none 100).checkpoint ≡ 102
unfolding fetch_and_store_events run_call run_cycle turn on_events on_empty advance checkpoint
two_events_are_stored = refl

cycle_ends_example :
    run_cycle two_pages 200 max_rounds (new_cycle 101 100) ≢ out_of_fuel (new_cycle 101 100)
cycle_ends_example = cycle_ends two_pages 200 101 100 (new_cycle 101 100)

fetch_and_store_events_accounts_example :
    AccountsFor 100 (fetch_and_store_events (setting two_pages) none 100)
fetch_and_store_events_accounts_example =
    fetch_and_store_events_accounts (setting two_pages) none 100 refl

empty_range_goes_back_example :
    ((fetch_and_store_events (setting no_events) (some 150) 100).checkpoint ≡ 100)
    × (next_start (fetch_and_store_events (setting no_events) (some 150) 100).fetched
        ≡ some (100 + 1))
empty_range_goes_back_example =
    empty_range_goes_back (setting no_events) 200 150 100 refl refl (λ e. absurd (omega arith)) refl
      refl (omega arith) (omega arith)

abbrev event_data : String → ℕ → EventData
event_data kind n = record {
  event_id = kind;
  ledger = n;
  contract_id = "CA";
  event_type = kind;
  event_data = "";
  timestamp = "";
  transaction_hash = "h";
}

abbrev mixed : List EventData
mixed = event_data "ATTEST:CREATE" 5 ∷ event_data "OTHER" 4 ∷ event_data "SCHEMA:CREATE" 6 ∷ []

schemas_come_first :
    ordered_events mixed
    ≡ event_data "SCHEMA:CREATE" 6 ∷ event_data "ATTEST:CREATE" 5 ∷ event_data "OTHER" 4 ∷ []
unfolding ordered_events
schemas_come_first = refl

ordered_events-perm_example : Perm (ordered_events mixed) mixed
ordered_events-perm_example = ordered_events-perm mixed

abbrev raw : RawEvent
raw = record {
  id = "e1";
  ledger = 12;
  contract_id = "CA";
  topic = "ATTEST" ∷ "CREATE" ∷ [];
  value = "v";
  ledger_closed_at = "";
  tx_hash = "h";
}

abbrev recurring_setting : RecurringSetting
recurring_setting = record {
  connected = true;
  configured_contracts = "CA" ∷ [];
  latest = λ n. got 20;
  readable = true;
  writable = true;
  events_from = λ n. answered (raw ∷ []) (some 20);
  decoder = record { decode_topic = λ t. some t; decode_value = λ v. some v; error_message = "" };
  process_event = λ e. record { operations = 2; transaction_stored = true; error = none };
}

abbrev decoded : EventData
decoded = record {
  event_id = "e1";
  ledger = 12;
  contract_id = "CA";
  event_type = "ATTEST:CREATE";
  event_data = "v";
  timestamp = "";
  transaction_hash = "h";
}

decodes : parse_all recurring_setting.decoder (raw ∷ []) ≡ some (decoded ∷ [])
unfolding parse_all parse_event_data decode_all
decodes = refl

ingest_events_accounts_example :
    let res = (ingest_events recurring_setting 10 9 (raw ∷ []) (some 20)).0 in
    (res.events_processed + length res.errors ≡ length (raw ∷ []))
    × (checked_up_to 10 (some 20) ≤ res.processed_up_to_ledger)
ingest_events_accounts_example =
    ingest_events_accounts recurring_setting 10 9 raw [] (some 20) (decoded ∷ []) decodes
