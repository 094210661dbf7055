-- ===== src/Indexer/Examples.antt =====
-- A run of apps/horizon in which the RPC node cannot be reached.
use attest_so.Prelude.{◌≡◌, refl, true, false, [], ◌∷◌, ◌++◌, none, some, arith}
use attest_so.Queue.Types.{IngestJob, IngestQueue, recurring_result}
use attest_so.Queue.Operations.{new_queue, recurring_job}
use attest_so.Queue.Tick.{tick_end}
use attest_so.Ingest.Recurring.{
  RecurringSetting, no_answer, answered, get_latest, start_of, perform_recurring_ingestion,
}
use attest_so.Indexer.Restart.{IsDown, failed_ingestion_restarts_at_one}

abbrev unreachable_node : RecurringSetting
unreachable_node = record {
  connected = true;
  configured_contracts = "CA" ∷ [];
  latest = λ n. no_answer "timeout";
  readable = true;
  writable = true;
  events_from = λ n. answered [] none;
  decoder = record { decode_topic = λ t. some t; decode_value = λ v. some v; error_message = "" };
  process_event = λ e. record { operations = 0; transaction_stored = false; error = none };
}

is_down : IsDown unreachable_node
unfolding get_latest
is_down = ("Failed to get latest ledger from RPC after 3 attempts: timeout", refl)

abbrev idle_queue : IngestQueue
idle_queue = new_queue (record { poll_interval_ms = none; base_backoff_ms = none })

abbrev job_r1 : IngestJob
job_r1 =
    recurring_job "r1" 100 ("CA" ∷ []) (some 5000)
      (record { max_attempts = none; delay_ms = none; end_ledger = none; include_failed_tx = none })

failed_ingestion_restarts_at_one_example :
    let res = (perform_recurring_ingestion unreachable_node (some 5000) none 4999).0 in
    (j : IngestJob) × (res.success ≡ false)
    × ((perform_recurring_ingestion unreachable_node (some 5000) none 4999).1 ≡ 4999)
    × ((tick_end 200 3 job_r1 (recurring_result res) idle_queue).0.pending_jobs
        ≡ idle_queue.pending_jobs ++ j ∷ [])
    × (j.attempts ≡ 0)
    × (start_of unreachable_node j.payload.start_ledger 4999 ≡ 1)
unfolding recurring_job
failed_ingestion_restarts_at_one_example =
    failed_ingestion_restarts_at_one unreachable_node (some 5000) none 4999 200 3 job_r1 idle_queue
      refl (λ e. absurd (omega arith)) is_down refl
