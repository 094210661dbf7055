-- ===== src/Queue/Overflow.antt =====
-- apps/horizon/src/common/queue.ts: what an overflow of `computeBackoffMs` does to a job.
use Prim.Native.String.{String}
use attest_so.Prelude.{
  List, Has, Has-append_left, Has-append_right, Has-middle, ℕ, ◌+◌, ◌-◌, ◌*◌, ◌^◌, ◌≤◌, ◌≡◌, ◌⊎◌,
  refl, inl, inr, true, false, [], ◌∷◌, ◌++◌, ltb, ◌==◌, Bool-cases, arith,
}
use attest_so.Queue.Types.{Delay, infinite, not_a_number, IngestJob, IngestQueue, thrown}
use attest_so.Queue.Backoff.{overflow, scaled_base, jittered, at_least, compute_backoff_ms}
use attest_so.Queue.Operations.{
  stop, enqueue_fetch_events, enqueue_contract_operations, enqueue_recurring_ingestion,
}
use attest_so.Queue.Picking.{tick_begin_cases}
use attest_so.Queue.Settling.{Settled, gone, again, tick_end-Settled}
use attest_so.Queue.Identity.{start-pending}
use attest_so.Queue.System.{
  System, began, Step, starts, stops, enqueues_events, enqueues_operations, enqueues_recurring,
  fires, settles, Reach, here, next,
}
use attest_so.Queue.Tick.{
  tick_begin, is_due, is_ready, due_after, is_continuous, retried, on_error, tick_end,
}

scaled_base-infinite : (base n : ℕ) → overflow ≤ base * 2 ^ n → scaled_base base n ≡ infinite
unfolding scaled_base
scaled_base-infinite base n over = elim (Bool-cases (ltb n 1024)) [
  | inl few ↦ rw few (rw (not_below over) refl)
  | inr many ↦ rw many (rw (positive over) refl)
]
  where
    not_below : overflow ≤ base * 2 ^ n → ltb (base * 2 ^ n) overflow ≡ false
    not_below h = ground arith

    none_left : base ≡ 0 → overflow ≤ base * 2 ^ n → ⊥
    none_left z h = let h' : overflow ≤ 0 * 2 ^ n = rw z at h in omega arith

    positive : overflow ≤ base * 2 ^ n → (base == 0) ≡ false
    positive h = elim (Bool-cases (base == 0)) [
      | inr other ↦ other
      | inl zero_base ↦ absurd (none_left (ground arith) h)
    ]

backoff-overflows :
    (q : IngestQueue) (n r : ℕ)
    → overflow ≤ q.base_backoff_ms * 2 ^ n
    → (compute_backoff_ms q n r ≡ infinite) ⊎ (compute_backoff_ms q n r ≡ not_a_number)
unfolding compute_backoff_ms jittered at_least
backoff-overflows q n r over =
    let huge = scaled_base-infinite q.base_backoff_ms n over in
    elim (Bool-cases (ltb (2 ^ 52) r)) [
      | inl high ↦ inl (rw (huge, compute_backoff_ms, high) refl)
      | inr low ↦ inr (rw (huge, compute_backoff_ms, low) refl)
    ]

never_due :
    (now t : ℕ) (d : Delay)
    → (d ≡ infinite) ⊎ (d ≡ not_a_number)
    → is_due t (due_after now d) ≡ false
unfolding is_due due_after
never_due now t d (inl far) = rw far refl
never_due now t d (inr none) = rw none refl

retried-never_due :
    (now r : ℕ) (q : IngestQueue) (job : IngestJob)
    → overflow ≤ q.base_backoff_ms * 2 ^ job.attempts
    → (t : ℕ) → is_ready t (retried now r q job) ≡ false
unfolding retried
retried-never_due now r q job over t =
    let same : job.attempts + 1 - 1 ≡ job.attempts = omega arith in
    let over' : overflow ≤ q.base_backoff_ms * 2 ^ (job.attempts + 1 - 1) = rw same over in
    never_due now t _ (backoff-overflows q (job.attempts + 1 - 1) r over')

-- The failed job stands at the end of the queue.
failed_job_waits :
    (now r : ℕ) (job : IngestJob) (message : String) (q : IngestQueue)
    → is_continuous job.type job.payload.end_ledger ≡ true
    → (tick_end now r job (thrown message) q).0.pending_jobs
      ≡ q.pending_jobs ++ retried now r q job ∷ []
unfolding tick_end on_error
failed_job_waits now r job message q endless = rw (endless, on_error) refl

-- A job of this name that is ready at no time.
abbrev pub IsStuck : String → IngestJob → Type 0
IsStuck id j = (j.id ≡ id) × ((t : ℕ) → is_ready t j ≡ false)

retried-IsStuck :
    (now r : ℕ) (q : IngestQueue) (job : IngestJob)
    → overflow ≤ q.base_backoff_ms * 2 ^ job.attempts
    → IsStuck job.id (retried now r q job)
unfolding retried
retried-IsStuck now r q job over = (refl, retried-never_due now r q job over)

fire-Stuck :
    (id : String) (now : ℕ) (s : System)
    → Has (IsStuck id) s.queue.pending_jobs
    → Has
        (IsStuck id)
        (began s ((tick_begin now s.queue).0, (tick_begin now s.queue).1)).queue.pending_jobs
fire-Stuck id now s h = elim (tick_begin_cases now s.queue) [
  | inl (busy, same) ↦ rw same h
  | inr (inl (idle, late, same)) ↦ rw same h
  | inr (inr (q', job, idle, taken, b)) ↦
      rw (taken, b.first.remains)
        (elim (Has-middle (IsStuck id) b.first.before job b.first.after (rw b.first.whole at h)) [
          | inl (named, stuck) ↦ absurd (cc (b.first.passes, stuck now))
          | inr other ↦ other
        ])
]

settle-Stuck :
    (id : String) {q q' : IngestQueue} {job : IngestJob}
    → Settled q q' job
    → Has (IsStuck id) q.pending_jobs
    → Has (IsStuck id) q'.pending_jobs
settle-Stuck id (gone e c) h = rw e h
settle-Stuck id {q} (again j e c) h = rw e (Has-append_left (IsStuck id) q.pending_jobs (j ∷ []) h)

Step-Stuck :
    (id : String) {s t : System}
    → Step s t
    → Has (IsStuck id) s.queue.pending_jobs
    → Has (IsStuck id) t.queue.pending_jobs
unfolding stop enqueue_fetch_events enqueue_contract_operations enqueue_recurring_ingestion
Step-Stuck _ {s} (starts handle) h = rw (start-pending handle s.queue s.intervals) h
Step-Stuck _ stops h = h
Step-Stuck id {s} (enqueues_events _ now start_ledger opts fresh) h =
    Has-append_left (IsStuck id) s.queue.pending_jobs _ h
Step-Stuck id {s} (enqueues_operations _ now contract_ids start_ledger opts fresh) h =
    Has-append_left (IsStuck id) s.queue.pending_jobs _ h
Step-Stuck id {s} (enqueues_recurring _ now contract_ids start_ledger opts fresh) h =
    Has-append_left (IsStuck id) s.queue.pending_jobs _ h
Step-Stuck id {s} (fires now handle alive) h = fire-Stuck id now s h
Step-Stuck id {s} (settles now r before after job outcome split fits small) h =
    settle-Stuck id (tick_end-Settled now r job outcome s.queue fits) h

Reach-Stuck :
    (id : String) (s t : System)
    → Reach s t
    → Has (IsStuck id) s.queue.pending_jobs
    → Has (IsStuck id) t.queue.pending_jobs
Reach-Stuck id s _ here h = h
Reach-Stuck id s _ (next {t} r step) h = Step-Stuck id step (Reach-Stuck id s t r h)

-- The process after the call for an awaited job was rejected.
abbrev pub after_failure :
    ℕ → ℕ → List IngestJob → List IngestJob → IngestJob → String → System → System
after_failure now r before after job message s = record s {
  queue = (tick_end now r job (thrown message) s.queue).0;
  in_flight = before ++ after;
}

-- A job without end fails when base * 2^attempts overflows the doubles. Then, whatever steps follow,
-- a job of its name is pending that is ready at no time.
pub overflowed_job_never_runs :
    (now r : ℕ) (before after : List IngestJob) (job : IngestJob) (message : String) (s t : System)
    → s.in_flight ≡ before ++ job ∷ after
    → is_continuous job.type job.payload.end_ledger ≡ true
    → overflow ≤ s.queue.base_backoff_ms * 2 ^ job.attempts
    → Reach (after_failure now r before after job message s) t
    → Has (IsStuck job.id) t.queue.pending_jobs
overflowed_job_never_runs now r before after job message s t split endless over reach =
    Reach-Stuck job.id _ t reach (
      rw (failed_job_waits now r job message s.queue endless) (
        Has-append_right (IsStuck job.id) s.queue.pending_jobs _
          (inl (retried-IsStuck now r s.queue job over))))
