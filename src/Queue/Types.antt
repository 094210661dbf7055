-- ===== src/Queue/Types.antt =====
-- apps/horizon/src/common/queue.ts: the jobs, the fields of `IngestQueue`, and the events that it
-- emits. Ledger numbers, times and counters are natural numbers.
use Prim.Native.String.{String}
use attest_so.Prelude.{ℕ, Bool, List, Option}
use attest_so.Ingest.Types.{FetchEventsResult, RecurringIngestResult}

pub data IngestJobType : Type 0 where
  fetch_events fetch_contract_operations fetch_recurring : IngestJobType
  backfill_missing_operations : IngestJobType

-- A number that arithmetic made: a natural number, or one of the two that doubles overflow to.
pub data Delay : Type 0 where
  finite : ℕ → Delay
  infinite not_a_number : Delay

pub record Payload : Type 0 where
  pub start_ledger : Option ℕ
  pub contract_ids : Option (List String)
  pub include_failed_tx : Option Bool
  pub operation_type : Option String
  pub end_ledger : Option ℕ

pub record IngestJob : Type 0 where
  pub id : String
  pub type : IngestJobType
  pub payload : Payload
  pub attempts : ℕ
  pub max_attempts : ℕ
  pub next_run_at : Delay

-- An interval handle is the number that `setInterval` returned.
pub record IngestQueue : Type 0 where
  pub pending_jobs : List IngestJob
  pub is_running : Bool
  pub processing : Bool
  pub interval_handle : Option ℕ
  pub poll_interval_ms : ℕ
  pub base_backoff_ms : ℕ

-- What the call that `tick` awaits settles with. `other_result` is the result of
-- `fetchContractOperations`, and the undefined result of a job type that no branch handles.
pub data Outcome : Type 0 where
  events_result : FetchEventsResult → Outcome
  recurring_result : RecurringIngestResult → Outcome
  other_result : Outcome
  thrown : String → Outcome

-- The events of the emitter, with what is passed to the listeners.
pub data QueueEvent : Type 0 where
  started stopped : QueueEvent
  enqueued started_job dead_job : IngestJob → QueueEvent
  requeued_job : IngestJob → Delay → QueueEvent
  failed_job : IngestJob → String → QueueEvent
  completed_job : IngestJob → Outcome → QueueEvent
