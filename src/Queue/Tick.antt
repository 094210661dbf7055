-- ===== src/Queue/Tick.antt =====
-- apps/horizon/src/common/queue.ts: `tick`, cut at its `await`: `tick_begin` runs up to the call that
-- fetches, and `tick_end` runs when that call settles.
use Prim.Native.String.{String}
use attest_so.Prelude.{
  ℕ, zero, suc, ◌+◌, ◌-◌, ◌*◌, max, Bool, true, false, ◌&&◌, ◌||◌, List, [], ◌∷◌, ◌++◌, Option,
  none, some, ltb, leb, if◌then◌else◌, ◌==◌, includes,
}
use attest_so.Ingest.Types.{RecurringIngestResult}
use attest_so.Queue.Types.{
  IngestJobType, fetch_events, fetch_recurring, Delay, finite, infinite, not_a_number, IngestJob,
  Payload, IngestQueue, Outcome, events_result, recurring_result, other_result, thrown, QueueEvent,
  started_job, dead_job, requeued_job, failed_job, completed_job,
}
use attest_so.Queue.Backoff.{compute_backoff_ms}

-- `findIndex`; `none` is -1.
unfoldable pub find_index {ℓ} : {A : Type ℓ} → (A → Bool) → List A → Option ℕ
find_index p [] = none
find_index p (x ∷ xs) =
    let later : Option ℕ = elim (find_index p xs) [ none ↦ none | some i ↦ some (suc i) ] in
    if p x then some 0 else later

-- `splice(i, 1)`: the element removed, and what the array holds after it.
unfoldable pub splice_one {ℓ} : {A : Type ℓ} → ℕ → List A → Option (A × List A)
splice_one i [] = none
splice_one zero (x ∷ xs) = some (x, xs)
splice_one (suc i) (x ∷ xs) = elim (splice_one i xs) [
  | none ↦ none
  | some (y, rest) ↦ some (y, x ∷ rest)
]

-- `t <= now`, which neither Infinity nor NaN is.
unfoldable pub is_due : ℕ → Delay → Bool
is_due now (finite t) = leb t now
is_due now _ = false

abbrev pub is_ready : ℕ → IngestJob → Bool
is_ready now j = is_due now j.next_run_at

-- `Date.now() + delay`
unfoldable pub due_after : ℕ → Delay → Delay
due_after now (finite d) = finite (now + d)
due_after now infinite = infinite
due_after now not_a_number = not_a_number

-- The first job that is ready, and the queue without it.
unfoldable pub take_ready : ℕ → List IngestJob → Option (IngestJob × List IngestJob)
unfolding find_index splice_one is_due
take_ready now jobs = elim (find_index (is_ready now) jobs) [
  | none ↦ none
  | some idx ↦ splice_one idx jobs
]

-- Up to the `await`. The job that is returned is the one whose fetch has been called.
unfoldable pub tick_begin : ℕ → IngestQueue → IngestQueue × Option IngestJob × List QueueEvent
tick_begin now q = if q.processing then (q, none, []) else elim (take_ready now q.pending_jobs) [
  | none ↦ (q, none, [])
  | some (job, rest) ↦
      (record q { pending_jobs = rest; processing = true }, some job, started_job job ∷ [])
]

-- `typeof endLedger !== 'number' || endLedger <= 0`
unfoldable pub has_no_end : Option ℕ → Bool
has_no_end none = true
has_no_end (some end_ledger) = leb end_ledger 0

unfoldable pub should_continue : Option ℕ → ℕ → Bool
should_continue none processed = true
should_continue (some end_ledger) processed = leb end_ledger 0 || ltb processed end_ledger

abbrev pub continue_from : ℕ → Payload → Payload
continue_from processed p = record p { start_ledger = some (processed + 1) }

unfoldable is_waiting_for_blockchain : RecurringIngestResult → Bool
is_waiting_for_blockchain r = r.events_processed == 0 && includes r.message "Waiting for blockchain"

unfoldable pub recurring_delay : ℕ → RecurringIngestResult → ℕ
unfolding is_waiting_for_blockchain
recurring_delay poll r = if is_waiting_for_blockchain r then max 5000 (poll * 5) else poll

-- The job of the next iteration, with its delay, if the type and the result ask for one.
unfoldable pub next_iteration : ℕ → ℕ → IngestJob → IngestJobType → Outcome → Option (IngestJob × ℕ)
unfolding should_continue recurring_delay
next_iteration now poll job fetch_events (events_result r) =
    if should_continue job.payload.end_ledger r.processed_up_to_ledger
    then some (
      record job {
        payload = continue_from r.processed_up_to_ledger job.payload;
        attempts = if r.events_fetched == 0 then job.attempts + 1 else 0;
        next_run_at = finite (now + poll);
      },
      poll,
    )
    else none
next_iteration now poll job fetch_recurring (recurring_result r) =
    if should_continue job.payload.end_ledger r.processed_up_to_ledger
    then some (
      record job {
        payload = continue_from r.processed_up_to_ledger job.payload;
        attempts = 0;
        next_run_at = finite (now + recurring_delay poll r);
      },
      recurring_delay poll r,
    )
    else none
next_iteration now poll job _ _ = none

-- The `try` block after its `await`, where the call returned.
unfoldable pub on_result : ℕ → IngestJob → Outcome → IngestQueue → IngestQueue × List QueueEvent
unfolding next_iteration
on_result now job outcome q = elim (next_iteration now q.poll_interval_ms job job.type outcome) [
  | none ↦ (q, completed_job job outcome ∷ [])
  | some (next_job, delay_ms) ↦ (
    record q { pending_jobs = q.pending_jobs ++ next_job ∷ [] },
    requeued_job next_job (finite delay_ms) ∷ completed_job job outcome ∷ [],
  )
]

-- `isContinuousEventsJob || isContinuousRecurringJob`
unfoldable pub is_continuous : IngestJobType → Option ℕ → Bool
unfolding has_no_end
is_continuous fetch_events end_ledger = has_no_end end_ledger
is_continuous fetch_recurring end_ledger = has_no_end end_ledger
is_continuous _ end_ledger = false

-- The job after a failure: one more attempt, and due after the backoff.
unfoldable pub retried : ℕ → ℕ → IngestQueue → IngestJob → IngestJob
unfolding due_after
retried now r q job = record job {
  attempts = job.attempts + 1;
  next_run_at = due_after now (compute_backoff_ms q (job.attempts + 1 - 1) r);
}

-- The `catch` block.
unfoldable pub on_error : ℕ → ℕ → IngestJob → String → IngestQueue → IngestQueue × List QueueEvent
unfolding is_continuous retried
on_error now r job message q =
    let failed = record job { attempts = job.attempts + 1 } in
    let again = retried now r q job in
    let backoff = compute_backoff_ms q (job.attempts + 1 - 1) r in
    if is_continuous job.type job.payload.end_ledger
    then (
      record q { pending_jobs = q.pending_jobs ++ again ∷ [] },
      failed_job failed message ∷ requeued_job again backoff ∷ [],
    )
    else if ltb (job.attempts + 1) job.max_attempts
    then (
      record q { pending_jobs = q.pending_jobs ++ again ∷ [] },
      failed_job failed message ∷ requeued_job again backoff ∷ [],
    )
    else (q, failed_job failed message ∷ dead_job failed ∷ [])

abbrev settled : ℕ → ℕ → IngestJob → Outcome → IngestQueue → IngestQueue × List QueueEvent
settled now r job (thrown message) q = on_error now r job message q
settled now r job (events_result x) q = on_result now job (events_result x) q
settled now r job (recurring_result x) q = on_result now job (recurring_result x) q
settled now r job other_result q = on_result now job other_result q

abbrev released : IngestQueue × List QueueEvent → IngestQueue × List QueueEvent
released (q, events) = (record q { processing = false }, events)

-- From the `await` on: `now` and `r` are the clock and the random number at that moment.
unfoldable pub tick_end : ℕ → ℕ → IngestJob → Outcome → IngestQueue → IngestQueue × List QueueEvent
tick_end now r job outcome q = released (settled now r job outcome q)
