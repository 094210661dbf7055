-- ===== src/Queue/System.antt =====
-- apps/horizon/src/common/queue.ts as it runs: the queue, the live intervals of the runtime, and the
-- jobs whose fetch is awaited. A step is one uninterrupted run of the event loop.
use Prim.Native.String.{String}
use mathlib.Core.List.{Mem}
use attest_so.Prelude.{ℕ, ◌<◌, ◌≡◌, List, [], ◌∷◌, ◌++◌, map, Option, none, some}
use attest_so.Ingest.Types.{FetchEventsResult, RecurringIngestResult}
use attest_so.Queue.Types.{
  IngestJobType, fetch_events, fetch_contract_operations, fetch_recurring,
  backfill_missing_operations, IngestJob, IngestQueue, Outcome, events_result, recurring_result,
  other_result, thrown,
}
use attest_so.Queue.Operations.{
  EnqueueOptions, start, stop, enqueue_fetch_events, enqueue_contract_operations,
  enqueue_recurring_ingestion, QueueOptions, new_queue,
}
use attest_so.Queue.Backoff.{random_range}
use attest_so.Queue.Tick.{tick_begin, tick_end}

pub record System : Type 0 where
  pub queue : IngestQueue
  pub intervals : List ℕ
  pub in_flight : List IngestJob

abbrev pub ids : List IngestJob → List String
ids jobs = map (λ j. IngestJob.id j) jobs

-- Every job that the process still knows of.
abbrev pub live : System → List IngestJob
live s = s.queue.pending_jobs ++ s.in_flight

-- What the call for a job of each type can settle with.
pub data Settles : IngestJobType → Outcome → Type 0 where
  fetched_events : (r : FetchEventsResult) → Settles fetch_events (events_result r)
  fetched_recurring : (r : RecurringIngestResult) → Settles fetch_recurring (recurring_result r)
  fetched_operations : Settles fetch_contract_operations other_result
  nothing_called : Settles backfill_missing_operations other_result
  rejected : (t : IngestJobType) (message : String) → Settles t (thrown message)

abbrev pub with_queue : System → IngestQueue → System
with_queue s q = record s { queue = q }

abbrev pub with_intervals : System → IngestQueue × List ℕ → System
with_intervals s (q, intervals) = record s { queue = q; intervals = intervals }

abbrev pub began : System → IngestQueue × Option IngestJob → System
began s (q, none) = record s { queue = q }
began s (q, some job) = record s { queue = q; in_flight = s.in_flight ++ job ∷ [] }

-- Names are taken to be new: a clock value and a random text make them.
abbrev Fresh : String → System → Type 0
Fresh id s = ¬ Mem id (ids (live s))

pub data Step (s : System) : System → Type 0 where
  starts : (handle : ℕ) → Step s (with_intervals s (start handle (s.queue, s.intervals)).0)
  stops : Step s (with_intervals s (stop (s.queue, s.intervals)).0)
  enqueues_events :
      (id : String) (now : ℕ) (start_ledger : Option ℕ) (opts : EnqueueOptions)
      → Fresh id s
      → Step s (with_queue s (enqueue_fetch_events id now start_ledger opts s.queue).0)
  enqueues_operations :
      (id : String) (now : ℕ) (contract_ids : List String) (start_ledger : Option ℕ)
      (opts : EnqueueOptions)
      → Fresh id s
      → Step s (
          with_queue s
            (enqueue_contract_operations id now contract_ids start_ledger opts s.queue).0)
  enqueues_recurring :
      (id : String) (now : ℕ) (contract_ids : List String) (start_ledger : Option ℕ)
      (opts : EnqueueOptions)
      → Fresh id s
      → Step s (
          with_queue s
            (enqueue_recurring_ingestion id now contract_ids start_ledger opts s.queue).0)
  -- A live interval fires.
  fires :
      (now : ℕ) (handle : ℕ)
      → Mem handle s.intervals
      → Step s (began s ((tick_begin now s.queue).0, (tick_begin now s.queue).1))
  -- The call for one of the awaited jobs settles.
  settles :
      (now r : ℕ) (before after : List IngestJob) (job : IngestJob) (outcome : Outcome)
      → s.in_flight ≡ before ++ job ∷ after
      → Settles job.type outcome
      → r < random_range
      → Step s
          (record s { queue = (tick_end now r job outcome s.queue).0; in_flight = before ++ after })

pub data Reach (s : System) : System → Type 0 where
  here : Reach s s
  next : {t u : System} → Reach s t → Step t u → Reach s u

-- The process as it starts: the singleton that the module exports, and nothing else.
abbrev pub initial : QueueOptions → System
initial o = record { queue = new_queue o; intervals = []; in_flight = [] }
