-- ===== src/Backfill/Examples.antt =====
-- A backfill of one page from a node, and the theorems at it.
use attest_so.Prelude.{
  ℕ, zero, suc, ◌+◌, ◌*◌, ◌≤◌, ◌≡◌, refl, true, List, [], ◌∷◌, none, some, length, All, arith,
}
use attest_so.Ingest.Cycle.{from_ledger}
use attest_so.Ingest.Events.{
  RawEvent, EventData, parse_event_data, decode_all, parse_all, ordered_events,
}
use attest_so.Ingest.Recurring.{got, get_latest}
use attest_so.Backfill.Loop.{
  EventProcessor, BackfillAnswer, BackfillSetting, answered, Progress, goes_on, request_of,
  settle_event, process_events, after_batch, on_page, round, backfill_loop,
}
use attest_so.Backfill.Call.{first_progress, perform_backfill}
use attest_so.Backfill.Outcome.{
  PagesHaveAtMost, Moved, perform_backfill_bounds, perform_backfill-checkpoint,
}
use attest_so.Backfill.Skipping.{next_page_skips}

-- The tables are the list of the events stored.
abbrev recorder : EventProcessor
recorder = record {
  Tables = List EventData;
  process = λ e s. (e ∷ s, record { operations = 1; transaction_stored = true; error = none });
}

abbrev raw_at : ℕ → RawEvent
raw_at n = record {
  id = "e";
  ledger = n;
  contract_id = "CA";
  topic = "OTHER" ∷ [];
  value = "v";
  ledger_closed_at = "";
  tx_hash = "h";
}

-- The first request is answered by a full page, which ends within ledger 12, the others by nothing.
abbrev answer : ℕ → BackfillAnswer
answer zero = answered [] (some 40) none
answer (suc zero) = answered (raw_at 11 ∷ raw_at 12 ∷ []) (some 40) (some "c")
answer (suc (suc n)) = answered [] (some 40) none

abbrev node : BackfillSetting
node = record {
  connected = true;
  contract_ids = "CA" ∷ [];
  latest = λ n. got 40;
  get_events = λ n r. answer n;
  decoder = record { decode_topic = λ t. some t; decode_value = λ v. some v; error_message = "" };
  writable = true;
}

abbrev begun : Progress recorder
begun = first_progress recorder (some 10) 500 []

abbrev event_at : ℕ → EventData
event_at n = record {
  event_id = "e";
  ledger = n;
  contract_id = "CA";
  event_type = "OTHER";
  event_data = "v";
  timestamp = "";
  transaction_hash = "h";
}

abbrev after_page : Progress recorder
after_page = record {
  tally = record {
    events_processed = 2;
    transactions_processed = 2;
    operations_processed = 2;
    processed_up_to_ledger = 12;
    errors = [];
  };
  current_start_ledger = 13;
  next_cursor = none;
  iteration_count = 1;
  checkpoint = 12;
  tables = event_at 12 ∷ event_at 11 ∷ [];
}

page_is_processed : round recorder node 0 begun ≡ goes_on after_page
unfolding round on_page after_batch process_events settle_event request_of parse_all
    parse_event_data decode_all ordered_events
page_is_processed = refl

-- The checkpoint goes from 500 back to 12.
checkpoint_goes_back :
    let r = perform_backfill recorder node (some 10) none 500 [] in
    (r.checkpoint ≡ 12) × (r.result.events_processed ≡ 2)
unfolding perform_backfill get_latest backfill_loop round on_page after_batch process_events
    settle_event request_of parse_all parse_event_data decode_all ordered_events
checkpoint_goes_back = (refl, refl)

pages_are_short : PagesHaveAtMost 2 node
pages_are_short zero r events latest cursor h = ground arith
pages_are_short (suc zero) r events latest cursor h = ground arith
pages_are_short (suc (suc n)) r events latest cursor h = ground arith

perform_backfill_bounds_example :
    let r = (perform_backfill recorder node (some 10) none 500 []).result in
    r.events_processed + length r.errors ≤ 50 * 2 + 1
perform_backfill_bounds_example =
    perform_backfill_bounds recorder node 2 (some 10) none 500 [] refl refl (omega arith)
      pages_are_short

perform_backfill-checkpoint_example :
    let r = perform_backfill recorder node (some 10) none 500 [] in
    Moved 10 500 r.result.events_processed r.result.processed_up_to_ledger r.checkpoint
perform_backfill-checkpoint_example =
    perform_backfill-checkpoint recorder node (some 10) none 500 [] refl refl refl

next_page_skips_example :
    (request_of recorder after_page ≡ from_ledger (12 + 1))
    × All (λ r. r.ledger ≤ 12) (raw_at 11 ∷ raw_at 12 ∷ [])
next_page_skips_example =
    next_page_skips recorder node 0 begun after_page (raw_at 11 ∷ raw_at 12 ∷ []) 39 (some "c") refl
      page_is_processed refl
