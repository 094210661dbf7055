-- ===== src/Queue/Operations.antt =====
-- apps/horizon/src/common/queue.ts: construction, start and stop, the enqueue methods, the status.
-- `now` is what `Date.now()` returns, and `id` the name made of it and of `Math.random()`.
use Prim.Native.String.{String}
use attest_so.Prelude.{
  ℕ, ◌+◌, ◌-◌, Bool, true, false, List, [], ◌∷◌, ◌++◌, map, Option, none, some, length, take,
  if◌then◌else◌, ◌or_else◌, ◌==◌,
}
use attest_so.Queue.Types.{
  IngestJobType, Delay, finite, infinite, not_a_number, fetch_events, fetch_contract_operations,
  fetch_recurring, IngestJob, IngestQueue, QueueEvent, started, stopped, enqueued,
}

pub record QueueOptions : Type 0 where
  pub poll_interval_ms : Option ℕ
  pub base_backoff_ms : Option ℕ

unfoldable pub new_queue : QueueOptions → IngestQueue
new_queue o = record {
  pending_jobs = [];
  is_running = false;
  processing = false;
  interval_handle = none;
  poll_interval_ms = o.poll_interval_ms or_else 1000;
  base_backoff_ms = o.base_backoff_ms or_else 5000;
}

-- `handle` is what `setInterval` returns. The list of live intervals is the runtime's.
unfoldable pub start : ℕ → IngestQueue × List ℕ → (IngestQueue × List ℕ) × List QueueEvent
start handle (q, intervals) = if q.is_running then ((q, intervals), []) else (
  (record q { is_running = true; interval_handle = some handle }, handle ∷ intervals),
  started ∷ [],
)

-- `clearInterval`: an unknown handle is ignored.
unfoldable pub clear_interval : ℕ → List ℕ → List ℕ
clear_interval h [] = []
clear_interval h (i ∷ is) = let rest = clear_interval h is in if h == i then rest else i ∷ rest

unfoldable clear_handle : Option ℕ → List ℕ → List ℕ
unfolding clear_interval
clear_handle none intervals = intervals
clear_handle (some h) intervals = clear_interval h intervals

unfoldable pub stop : IngestQueue × List ℕ → (IngestQueue × List ℕ) × List QueueEvent
unfolding clear_handle
stop (q, intervals) = (
  (
    record q { is_running = false; interval_handle = none },
    clear_handle q.interval_handle intervals,
  ),
  stopped ∷ [],
)

pub record EnqueueOptions : Type 0 where
  pub max_attempts : Option ℕ
  pub delay_ms : Option ℕ
  pub end_ledger : Option ℕ
  pub include_failed_tx : Option Bool

unfoldable pub fetch_events_job : String → ℕ → Option ℕ → EnqueueOptions → IngestJob
fetch_events_job id now start_ledger opts = record {
  id = id;
  type = fetch_events;
  payload = record {
    start_ledger = start_ledger;
    contract_ids = none;
    include_failed_tx = none;
    operation_type = none;
    end_ledger = opts.end_ledger;
  };
  attempts = 0;
  max_attempts = opts.max_attempts or_else 5;
  next_run_at = finite (now + (opts.delay_ms or_else 0));
}

unfoldable contract_operations_job :
    String → ℕ → List String → Option ℕ → EnqueueOptions → IngestJob
contract_operations_job id now contract_ids start_ledger opts = record {
  id = id;
  type = fetch_contract_operations;
  payload = record {
    start_ledger = start_ledger;
    contract_ids = some contract_ids;
    include_failed_tx = some (opts.include_failed_tx or_else true);
    operation_type = none;
    end_ledger = none;
  };
  attempts = 0;
  max_attempts = opts.max_attempts or_else 5;
  next_run_at = finite (now + (opts.delay_ms or_else 0));
}

unfoldable pub recurring_job : String → ℕ → List String → Option ℕ → EnqueueOptions → IngestJob
recurring_job id now contract_ids start_ledger opts = record {
  id = id;
  type = fetch_recurring;
  payload = record {
    start_ledger = start_ledger;
    contract_ids = some contract_ids;
    include_failed_tx = none;
    operation_type = none;
    end_ledger = opts.end_ledger;
  };
  attempts = 0;
  max_attempts = opts.max_attempts or_else 3;
  next_run_at = finite (now + (opts.delay_ms or_else 0));
}

-- The part that the three enqueue methods share.
unfoldable pub enqueue : IngestJob → IngestQueue → IngestQueue × String × List QueueEvent
enqueue job q = (record q { pending_jobs = q.pending_jobs ++ job ∷ [] }, job.id, enqueued job ∷ [])

unfoldable pub enqueue_fetch_events :
    String → ℕ → Option ℕ → EnqueueOptions → IngestQueue → IngestQueue × String × List QueueEvent
unfolding fetch_events_job enqueue
enqueue_fetch_events id now start_ledger opts = enqueue (fetch_events_job id now start_ledger opts)

unfoldable pub enqueue_contract_operations :
    String
    → ℕ
    → List String
    → Option ℕ
    → EnqueueOptions
    → IngestQueue
    → IngestQueue × String × List QueueEvent
unfolding contract_operations_job enqueue
enqueue_contract_operations id now contract_ids start_ledger opts =
    enqueue (contract_operations_job id now contract_ids start_ledger opts)

unfoldable pub enqueue_recurring_ingestion :
    String
    → ℕ
    → List String
    → Option ℕ
    → EnqueueOptions
    → IngestQueue
    → IngestQueue × String × List QueueEvent
unfolding recurring_job enqueue
enqueue_recurring_ingestion id now contract_ids start_ledger opts =
    enqueue (recurring_job id now contract_ids start_ledger opts)

-- Deprecated in the source: it calls `enqueueRecurringIngestion`.
unfoldable enqueue_comprehensive_data :
    String
    → ℕ
    → List String
    → Option ℕ
    → EnqueueOptions
    → IngestQueue
    → IngestQueue × String × List QueueEvent
unfolding enqueue_recurring_ingestion
enqueue_comprehensive_data = enqueue_recurring_ingestion

pub record JobSummary : Type 0 where
  pub id : String
  pub type : IngestJobType
  pub next_run_in_ms : Delay
  pub attempts : ℕ

pub record QueueStatus : Type 0 where
  pub size : ℕ
  pub running : Bool
  pub next_jobs : List JobSummary

-- `Math.max(0, t - Date.now())` is subtraction that stops at 0; Infinity and NaN stay.
unfoldable time_until : Delay → ℕ → Delay
time_until (finite t) now = finite (t - now)
time_until infinite now = infinite
time_until not_a_number now = not_a_number

abbrev summarize : ℕ → IngestJob → JobSummary
summarize now j = record {
  id = j.id;
  type = j.type;
  next_run_in_ms = time_until j.next_run_at now;
  attempts = j.attempts;
}

unfoldable pub get_status : ℕ → IngestQueue → QueueStatus
unfolding time_until
get_status now q = record {
  size = length q.pending_jobs;
  running = q.is_running;
  next_jobs = map (summarize now) (take 10 q.pending_jobs);
}
