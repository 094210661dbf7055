-- ===== src/Queue/Examples.antt =====
-- Runs of the queue of apps/horizon/src/common/queue.ts, and the theorems at such runs.
use mathlib.Core.List.{not-mem-nil, mem-cons_self}
use attest_so.Prelude.{
  ◌+◌, ◌≤◌, ◌≡◌, refl, inl, true, ℕ, [], ◌∷◌, none, some, All, Has, max, ◌*◌, ◌^◌, arith,
}
use attest_so.Queue.Types.{IngestJob, IngestQueue, finite, thrown}
use attest_so.Queue.Operations.{
  QueueOptions, EnqueueOptions, new_queue, start, stop, enqueue_fetch_events,
  enqueue_contract_operations, fetch_events_job, get_status,
}
use attest_so.Queue.System.{
  System, live, began, initial, Reach, enqueues_operations, here, next, starts, stops,
  enqueues_events, fires, settles, rejected, with_queue, with_intervals,
}
use attest_so.Queue.Tick.{tick_begin, tick_end, take_ready, is_due, is_continuous, has_no_end}
use attest_so.Queue.Backoff.{scaled_base, jittered, at_least, compute_backoff_ms}
use attest_so.Queue.Overflow.{IsStuck, after_failure, overflowed_job_never_runs}
use attest_so.Queue.Backoff.Bounds.{compute_backoff_ms_bounds}
use attest_so.Queue.Settling.{Settled, tick_end-Settled}
use attest_so.Queue.Invariant.{Inv, queue_invariant}
use attest_so.Queue.Identity.{IsPerpetual, endless_job_survives}
use attest_so.Queue.Names.{HasUniqueIds, names_stay_unique}
use attest_so.Queue.Retries.{HasTryLeft, operations_retry_limit}

abbrev defaults : QueueOptions
defaults = record { poll_interval_ms = none; base_backoff_ms = none }

abbrev plain : EnqueueOptions
plain = record { max_attempts = none; delay_ms = none; end_ledger = none; include_failed_tx = none }

-- The process is started, gets a job with no end, takes it up, and its fetch fails.
abbrev fresh_system : System
fresh_system = initial defaults

abbrev started_system : System
started_system =
    with_intervals fresh_system (start 7 (fresh_system.queue, fresh_system.intervals)).0

abbrev loaded_system : System
loaded_system =
    with_queue started_system (enqueue_fetch_events "e1" 100 (some 50) plain started_system.queue).0

abbrev busy_system : System
busy_system =
    began loaded_system
      ((tick_begin 200 loaded_system.queue).0, (tick_begin 200 loaded_system.queue).1)

abbrev job_e1 : IngestJob
job_e1 = fetch_events_job "e1" 100 (some 50) plain

abbrev failed_system : System
failed_system = record {
  queue = (tick_end 300 0 job_e1 (thrown "timeout") busy_system.queue).0;
  intervals = busy_system.intervals;
  in_flight = [];
}

up_to_start : Reach fresh_system started_system
up_to_start = next here (starts 7)

up_to_load : Reach fresh_system loaded_system
unfolding new_queue start
up_to_load = next up_to_start (enqueues_events "e1" 100 (some 50) plain not-mem-nil)

up_to_failure : Reach loaded_system failed_system
unfolding new_queue start enqueue_fetch_events tick_begin take_ready
up_to_failure =
    next (next here (fires 200 7 mem-cons_self))
      (settles 300 0 [] [] job_e1 (thrown "timeout") refl (rejected _ "timeout") (omega arith))

queue_invariant_example : Inv loaded_system
queue_invariant_example = queue_invariant defaults loaded_system up_to_load

names_stay_unique_example : HasUniqueIds loaded_system
names_stay_unique_example = names_stay_unique defaults loaded_system up_to_load

-- The job is pending again after its failure.
endless_job_survives_example : Has (IsPerpetual "e1") (live failed_system)
unfolding new_queue start enqueue_fetch_events is_continuous
endless_job_survives_example =
    endless_job_survives "e1" loaded_system failed_system up_to_failure (inl (refl, refl))

abbrev operations_system : System
operations_system =
    with_queue started_system
      (enqueue_contract_operations "c1" 100 ("CA" ∷ []) none plain started_system.queue).0

up_to_operations : Reach fresh_system operations_system
unfolding new_queue start
up_to_operations =
    next up_to_start (enqueues_operations "c1" 100 ("CA" ∷ []) none plain not-mem-nil)

operations_retry_limit_example : All HasTryLeft (live operations_system)
operations_retry_limit_example = operations_retry_limit defaults operations_system up_to_operations

abbrev two_jobs : IngestQueue
two_jobs = record (new_queue defaults) {
  pending_jobs = record job_e1 { next_run_at = finite 900 } ∷ job_e1 ∷ [];
}

tick_end-Settled_example :
    Settled two_jobs (tick_end 600 5 job_e1 (thrown "timeout") two_jobs).0 job_e1
tick_end-Settled_example =
    tick_end-Settled 600 5 job_e1 (thrown "timeout") two_jobs (rejected _ "timeout")

compute_backoff_ms_bounds_example :
    (d : ℕ) × (compute_backoff_ms two_jobs 2 17 ≡ finite d)
    × (two_jobs.base_backoff_ms ≤ d)
    × (5 * d ≤ max (5 * two_jobs.base_backoff_ms) (6 * (two_jobs.base_backoff_ms * 2 ^ 2)))
    × (4 * (two_jobs.base_backoff_ms * 2 ^ 2) ≤ 5 * d + 5)
unfolding new_queue
compute_backoff_ms_bounds_example =
    compute_backoff_ms_bounds two_jobs 2 17 (omega arith) (omega arith) (omega arith)

-- A job after 1020 polls without events.
abbrev tired_job : IngestJob
tired_job = record job_e1 { attempts = 1020 }

endless : is_continuous tired_job.type tired_job.payload.end_ledger ≡ true
unfolding is_continuous fetch_events_job has_no_end
endless = refl

-- Its call is awaited, fails, and the queue is stopped.
abbrev tired_system : System
tired_system = record { queue = two_jobs; intervals = []; in_flight = tired_job ∷ [] }

abbrev tired_failed_system : System
tired_failed_system = after_failure 600 5 [] [] tired_job "timeout" tired_system

abbrev stopped_system : System
stopped_system = with_intervals tired_failed_system (stop (tired_failed_system.queue, [])).0

overflowed_job_never_runs_example : Has (IsStuck tired_job.id) stopped_system.queue.pending_jobs
unfolding new_queue
overflowed_job_never_runs_example =
    overflowed_job_never_runs 600 5 [] [] tired_job "timeout" tired_system stopped_system refl
      endless (omega arith) (next here stops)

-- The second job is taken: the first is not due yet.
the_due_job_is_taken : (tick_begin 500 two_jobs).1 ≡ some job_e1
unfolding tick_begin take_ready is_due new_queue fetch_events_job
the_due_job_is_taken = refl

the_queue_is_running : (get_status 150 loaded_system.queue).running ≡ true
unfolding get_status new_queue start enqueue_fetch_events
the_queue_is_running = refl

the_retry_is_late : compute_backoff_ms two_jobs 2 0 ≡ finite 16000
unfolding compute_backoff_ms scaled_base jittered at_least new_queue
the_retry_is_late = refl
