-- ===== src/Queue/Progress.antt =====
-- What polling without events does to the retries of a job.
use Prim.Native.String.{String}
use attest_so.Prelude.{
  ℕ, ◌+◌, ◌≤◌, ◌<◌, ◌≡◌, refl, sym, subst, true, false, [], ◌∷◌, ◌++◌, some, ltb, ◌==◌, arith,
}
use attest_so.Ingest.Types.{FetchEventsResult}
use attest_so.Queue.Types.{IngestJob, IngestQueue, finite, fetch_events, events_result, thrown}
use attest_so.Queue.Tick.{
  should_continue, continue_from, next_iteration, on_result, is_continuous, has_no_end, on_error,
  tick_end,
}

-- The run after an empty one.
abbrev next_poll : ℕ → ℕ → IngestJob → FetchEventsResult → IngestJob
next_poll now poll job r = record job {
  payload = continue_from r.processed_up_to_ledger job.payload;
  attempts = job.attempts + 1;
  next_run_at = finite (now + poll);
}

empty_iteration :
    (now poll : ℕ) (job : IngestJob) (r : FetchEventsResult) (e : ℕ)
    → job.payload.end_ledger ≡ some e
    → r.processed_up_to_ledger < e
    → r.events_fetched ≡ 0
    → next_iteration now poll job fetch_events (events_result r)
      ≡ some (next_poll now poll job r, poll)
unfolding next_iteration should_continue
empty_iteration now poll job r e bounded more none_found =
    let goes : should_continue job.payload.end_ledger r.processed_up_to_ledger ≡ true =
      rw bounded (ground arith) in
    let empty : (r.events_fetched == 0) ≡ true = ground arith in rw goes (rw empty refl)

empty_poll :
    (now x : ℕ) (job : IngestJob) (r : FetchEventsResult) (e : ℕ) (q : IngestQueue)
    → job.type ≡ fetch_events
    → job.payload.end_ledger ≡ some e
    → r.processed_up_to_ledger < e
    → r.events_fetched ≡ 0
    → (tick_end now x job (events_result r) q).0.pending_jobs
      ≡ q.pending_jobs ++ next_poll now q.poll_interval_ms job r ∷ []
unfolding tick_end on_result
empty_poll now x job r e q t bounded more none_found =
    let n =
      subst
        (λ ty.
          next_iteration now q.poll_interval_ms job ty (events_result r)
          ≡ some (next_poll now q.poll_interval_ms job r, q.poll_interval_ms))
        (sym t) (empty_iteration now q.poll_interval_ms job r e bounded more none_found) in
    rw (n, on_result) refl

dies :
    (now x e : ℕ) (j : IngestJob) (m : String) (q : IngestQueue)
    → j.type ≡ fetch_events
    → j.payload.end_ledger ≡ some e
    → 0 < e
    → j.max_attempts ≤ j.attempts + 1
    → (tick_end now x j (thrown m) q).0.pending_jobs ≡ q.pending_jobs
unfolding tick_end on_error
dies now x e j m q t bounded positive spent =
    let ends : is_continuous j.type j.payload.end_ledger ≡ false =
      rw (t, bounded) (unfold is_continuous has_no_end in ground arith) in
    let last : ltb (j.attempts + 1) j.max_attempts ≡ false = ground arith in rw (ends, last) refl

-- A fetch job with an end ledger that has not been reached, and that finds no events, is queued
-- again with one attempt more, as if it had failed. If only one attempt was left, the first error
-- after that ends the job.
empty_poll_spends_attempt :
    (now x : ℕ) (job : IngestJob) (r : FetchEventsResult) (e : ℕ) (q : IngestQueue)
    → job.type ≡ fetch_events
    → job.payload.end_ledger ≡ some e
    → r.processed_up_to_ledger < e
    → r.events_fetched ≡ 0
    → job.max_attempts ≤ job.attempts + 2
    → (j : IngestJob) × ((tick_end now x job (events_result r) q).0.pending_jobs
        ≡ q.pending_jobs ++ j ∷ [])
      × (j.attempts ≡ job.attempts + 1)
      × ((now' x' : ℕ) (m : String) (q' : IngestQueue)
          → (tick_end now' x' j (thrown m) q').0.pending_jobs ≡ q'.pending_jobs)
empty_poll_spends_attempt now x job r e q t bounded more none_found spent = (
  next_poll now q.poll_interval_ms job r,
  empty_poll now x job r e q t bounded more none_found,
  refl,
  λ now' x' m q'.
      dies now' x' e (next_poll now q.poll_interval_ms job r) m q' t bounded (omega arith)
        (omega arith),
)
