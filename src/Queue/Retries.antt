-- ===== src/Queue/Retries.antt =====
-- How often a job is tried.
use Prim.Native.String.{String}
use attest_so.Prelude.{
  ℕ, ◌+◌, ◌≡◌, refl, ◌<◌, ◌≢◌, max, ◌⊎◌, inl, inr, false, List, [], ◌∷◌, ◌++◌, none, All,
  All-append, All-append_left, All-append_right, All-middle, Bool-cases, arith, ltb, ltb→lt,
}
use attest_so.Queue.Types.{
  IngestJobType, fetch_events, fetch_contract_operations, fetch_recurring,
  backfill_missing_operations, IngestJob, IngestQueue, Outcome, other_result, thrown,
}
use attest_so.Queue.Operations.{
  stop, enqueue_fetch_events, enqueue_contract_operations, enqueue_recurring_ingestion,
  QueueOptions, new_queue,
}
use attest_so.Queue.Tick.{
  tick_begin, tick_end, on_result, on_error, retried, next_iteration, is_continuous,
}
use attest_so.Queue.Picking.{tick_begin_cases}
use attest_so.Queue.Settling.{Settled, gone, again, tick_end-Settled}
use attest_so.Queue.Identity.{start-pending}
use attest_so.Queue.System.{
  System, live, began, Settles, fetched_events, fetched_recurring, fetched_operations,
  nothing_called, rejected, Step, starts, stops, enqueues_events, enqueues_operations,
  enqueues_recurring, fires, settles, Reach, here, next, initial,
}

-- A job for contract operations has a try left.
abbrev pub HasTryLeft : IngestJob → Type 0
HasTryLeft j = j.type ≡ fetch_contract_operations → j.attempts < max 1 j.max_attempts

is_operations_cases :
    (t : IngestJobType) → (t ≡ fetch_contract_operations) ⊎ (t ≢ fetch_contract_operations)
is_operations_cases fetch_events = inr (λ e. cc)
is_operations_cases fetch_contract_operations = inl refl
is_operations_cases fetch_recurring = inr (λ e. cc)
is_operations_cases backfill_missing_operations = inr (λ e. cc)

-- What is left in the queue when a call for contract operations settled.
error-pending :
    (now r : ℕ) (job : IngestJob) (m : String) (q : IngestQueue)
    → job.type ≡ fetch_contract_operations
    → All HasTryLeft q.pending_jobs
    → All HasTryLeft (on_error now r job m q).0.pending_jobs
unfolding on_error
error-pending now r job m q t h =
    let bounded : is_continuous job.type job.payload.end_ledger ≡ false =
      rw t (unfold is_continuous in refl) in
    elim (Bool-cases (ltb (job.attempts + 1) job.max_attempts)) [
      | inl more ↦
          rw (bounded, more)
            (All-append HasTryLeft q.pending_jobs (retried now r q job ∷ []) h
              ((λ _. unfold retried in omega (arith, ltb→lt _ _ more)), tt))
      | inr spent ↦ rw (bounded, spent) h
    ]

result-pending :
    (now : ℕ) (job : IngestJob) (q : IngestQueue)
    → job.type ≡ fetch_contract_operations
    → (on_result now job other_result q).0.pending_jobs ≡ q.pending_jobs
unfolding on_result
result-pending now job q t =
    let stops : next_iteration now q.poll_interval_ms job job.type other_result ≡ none =
      rw t (unfold next_iteration in refl) in
    rw (stops, on_result) refl

operations-pending :
    (now r : ℕ) (job : IngestJob) (o : Outcome) (q : IngestQueue)
    → job.type ≡ fetch_contract_operations
    → (o ≡ other_result) ⊎ ((m : String) × (o ≡ thrown m))
    → All HasTryLeft q.pending_jobs
    → All HasTryLeft (tick_end now r job o q).0.pending_jobs
unfolding tick_end
operations-pending now r job o q t (inl e) h = rw e (rw (result-pending now job q t) h)
operations-pending now r job o q t (inr (m, e)) h = rw e (error-pending now r job m q t h)

operations_outcome :
    {t : IngestJobType} {o : Outcome}
    → Settles t o
    → t ≡ fetch_contract_operations
    → (o ≡ other_result) ⊎ ((m : String) × (o ≡ thrown m))
operations_outcome (fetched_events r) e = absurd (cc)
operations_outcome (fetched_recurring r) e = absurd (cc)
operations_outcome fetched_operations e = inl refl
operations_outcome nothing_called e = inl refl
operations_outcome (rejected t m) e = inr (m, refl)

others-pending :
    {q q' : IngestQueue} {job : IngestJob}
    → Settled q q' job
    → job.type ≢ fetch_contract_operations
    → All HasTryLeft q.pending_jobs
    → All HasTryLeft q'.pending_jobs
others-pending (gone e c) other h = rw e h
others-pending {q} (again j e same) other h =
    rw e
      (All-append HasTryLeft q.pending_jobs (j ∷ []) h ((λ t. absurd (other (cc same.type))), tt))

settle-tries :
    (now r : ℕ) (s : System) (before after : List IngestJob) (job : IngestJob) (o : Outcome)
    → s.in_flight ≡ before ++ job ∷ after
    → Settles job.type o
    → All HasTryLeft (live s)
    → All HasTryLeft ((tick_end now r job o s.queue).0.pending_jobs ++ (before ++ after))
settle-tries now r s before after job o split fits h =
    let pending = All-append_left HasTryLeft s.queue.pending_jobs s.in_flight h in
    let flying : All HasTryLeft (before ++ job ∷ after) =
      rw split at (All-append_right HasTryLeft s.queue.pending_jobs s.in_flight h) in
    All-append HasTryLeft _ (before ++ after)
      (elim (is_operations_cases job.type) [
        | inl t ↦ operations-pending now r job o s.queue t (operations_outcome fits t) pending
        | inr other ↦ others-pending (tick_end-Settled now r job o s.queue fits) other pending
      ])
      (All-middle HasTryLeft before job after flying).1

fire-tries :
    (now : ℕ) (s : System)
    → All HasTryLeft (live s)
    → All HasTryLeft (live (began s ((tick_begin now s.queue).0, (tick_begin now s.queue).1)))
fire-tries now s h = elim (tick_begin_cases now s.queue) [
  | inl (busy, same) ↦ rw same h
  | inr (inl (idle, late, same)) ↦ rw same h
  | inr (inr (q', job, idle, taken, b)) ↦
      let pending : All HasTryLeft (b.first.before ++ job ∷ b.first.after) =
        rw b.first.whole at (All-append_left HasTryLeft s.queue.pending_jobs s.in_flight h) in
      let (it, others) = All-middle HasTryLeft b.first.before job b.first.after pending in
      rw (taken, b.first.remains)
        (All-append HasTryLeft (b.first.before ++ b.first.after) (s.in_flight ++ job ∷ []) others (
          All-append HasTryLeft s.in_flight (job ∷ [])
            (All-append_right HasTryLeft s.queue.pending_jobs s.in_flight h) (it, tt)))
]

push-tries :
    (pending flying : List IngestJob) (j : IngestJob)
    → HasTryLeft j
    → All HasTryLeft (pending ++ flying)
    → All HasTryLeft ((pending ++ j ∷ []) ++ flying)
push-tries pending flying j p h =
    All-append HasTryLeft (pending ++ j ∷ []) flying
      (All-append HasTryLeft pending (j ∷ []) (All-append_left HasTryLeft pending flying h) (p, tt))
      (All-append_right HasTryLeft pending flying h)

Step-tries : {s t : System} → Step s t → All HasTryLeft (live s) → All HasTryLeft (live t)
unfolding stop enqueue_fetch_events enqueue_contract_operations enqueue_recurring_ingestion
Step-tries {s} (starts handle) h = rw (start-pending handle s.queue s.intervals) h
Step-tries stops h = h
Step-tries {s} (enqueues_events id now start_ledger opts fresh) h =
    push-tries s.queue.pending_jobs s.in_flight _ (λ e. cc) h
Step-tries {s} (enqueues_operations id now contract_ids start_ledger opts fresh) h =
    push-tries s.queue.pending_jobs s.in_flight _ (λ e. omega arith) h
Step-tries {s} (enqueues_recurring id now contract_ids start_ledger opts fresh) h =
    push-tries s.queue.pending_jobs s.in_flight _ (λ e. cc) h
Step-tries {s} (fires now handle alive) h = fire-tries now s h
Step-tries {s} (settles now r before after job outcome split fits small) h =
    settle-tries now r s before after job outcome split fits h

Reach-tries : {s t : System} → Reach s t → All HasTryLeft (live s) → All HasTryLeft (live t)
Reach-tries here h = h
Reach-tries (next r step) h = Step-tries step (Reach-tries r h)

-- From the start of the process on, a job for contract operations that is pending or in flight has
-- failed fewer times than `maxAttempts` allows, and never if `maxAttempts` is 0 or 1.
pub operations_retry_limit :
    (o : QueueOptions) (t : System) → Reach (initial o) t → All HasTryLeft (live t)
unfolding new_queue
operations_retry_limit o t r = Reach-tries r tt
