-- ===== src/Queue/Settling.antt =====
-- What becomes of a job when its call settles.
use Prim.Native.String.{String}
use attest_so.Prelude.{
  ℕ, ◌+◌, ◌≡◌, refl, subst, ◌⊎◌, inl, inr, false, [], ◌∷◌, ◌++◌, Option, none, some, Bool-cases,
  arith, ltb, ◌==◌, if◌then◌else◌,
}
use attest_so.Queue.Types.{finite, IngestJobType, IngestJob, IngestQueue, Outcome, thrown}
use attest_so.Queue.Tick.{
  has_no_end, should_continue, is_continuous, continue_from, recurring_delay, next_iteration,
  retried, on_result, on_error, tick_end,
}
use attest_so.Queue.System.{
  Settles, fetched_events, fetched_recurring, fetched_operations, nothing_called, rejected,
}

-- `j` is a later run of `job`.
pub record SameJob (j job : IngestJob) : Type 0 where
  pub id : j.id ≡ job.id
  pub type : j.type ≡ job.type
  pub max_attempts : j.max_attempts ≡ job.max_attempts
  pub end_ledger : j.payload.end_ledger ≡ job.payload.end_ledger
  pub contract_ids : j.payload.contract_ids ≡ job.payload.contract_ids

has_no_end_of_stop : (e : Option ℕ) (n : ℕ) → should_continue e n ≡ false → has_no_end e ≡ false
unfolding should_continue has_no_end
has_no_end_of_stop none n h = cc
has_no_end_of_stop (some e) n h = ground arith

-- The queue after the call settled: the job is gone, or a later run of it stands at the end.
pub data Settled (q q' : IngestQueue) (job : IngestJob) : Type 0 where
  gone :
      q' ≡ record q { processing = false }
      → is_continuous job.type job.payload.end_ledger ≡ false
      → Settled q q' job
  again :
      (j : IngestJob)
      → q' ≡ record q { pending_jobs = q.pending_jobs ++ j ∷ []; processing = false }
      → SameJob j job
      → Settled q q' job

NextRun : IngestJob → IngestJobType → Option (IngestJob × ℕ) → Type 0
NextRun job t none = is_continuous t job.payload.end_ledger ≡ false
NextRun job t (some (j, delay)) = SameJob j job

next_iteration-NextRun :
    (now poll : ℕ) (job : IngestJob) {t : IngestJobType} {o : Outcome}
    → Settles t o
    → NextRun job t (next_iteration now poll job t o) ⊎ ((m : String) × (o ≡ thrown m))
unfolding next_iteration NextRun is_continuous
next_iteration-NextRun now poll job (fetched_events r) =
    elim (Bool-cases (should_continue job.payload.end_ledger r.processed_up_to_ledger)) [
      | inl more ↦ inl (rw more same)
      | inr done ↦ inl (rw done (has_no_end_of_stop job.payload.end_ledger _ done))
    ]
  where
    same :
        SameJob
          (record job {
            payload = continue_from r.processed_up_to_ledger job.payload;
            attempts = if r.events_fetched == 0 then job.attempts + 1 else 0;
            next_run_at = finite (now + poll);
          })
          job
    same = record {
      id = refl;
      type = refl;
      max_attempts = refl;
      end_ledger = refl;
      contract_ids = refl;
    }
next_iteration-NextRun now poll job (fetched_recurring r) =
    elim (Bool-cases (should_continue job.payload.end_ledger r.processed_up_to_ledger)) [
      | inl more ↦ inl (rw more same)
      | inr done ↦ inl (rw done (has_no_end_of_stop job.payload.end_ledger _ done))
    ]
  where
    same :
        SameJob
          (record job {
            payload = continue_from r.processed_up_to_ledger job.payload;
            attempts = 0;
            next_run_at = finite (now + recurring_delay poll r);
          })
          job
    same = record {
      id = refl;
      type = refl;
      max_attempts = refl;
      end_ledger = refl;
      contract_ids = refl;
    }
next_iteration-NextRun now poll job fetched_operations = inl refl
next_iteration-NextRun now poll job nothing_called = inl refl
next_iteration-NextRun now poll job (rejected t m) = inr (m, refl)

retried-SameJob :
    (now r : ℕ) (q : IngestQueue) (job : IngestJob) → SameJob (retried now r q job) job
unfolding retried
retried-SameJob now r q job = record {
  id = refl;
  type = refl;
  max_attempts = refl;
  end_ledger = refl;
  contract_ids = refl;
}

on_error-Settled :
    (now r : ℕ) (job : IngestJob) (m : String) (q : IngestQueue)
    → Settled q (record (on_error now r job m q).0 { processing = false }) job
unfolding on_error
on_error-Settled now r job m q = elim (Bool-cases (is_continuous job.type job.payload.end_ledger)) [
  | inl forever ↦ again (retried now r q job) (rw forever refl) (retried-SameJob now r q job)
  | inr bounded ↦ elim (Bool-cases (ltb (job.attempts + 1) job.max_attempts)) [
    | inl more ↦ again (retried now r q job) (rw (bounded, more) refl) (retried-SameJob now r q job)
    | inr spent ↦ gone (rw (bounded, spent) refl) bounded
  ]
]

on_result-Settled :
    (now : ℕ) (job : IngestJob) (o : Outcome) (q : IngestQueue)
    → NextRun job job.type (next_iteration now q.poll_interval_ms job job.type o)
    → Settled q (record (on_result now job o q).0 { processing = false }) job
unfolding on_result NextRun
on_result-Settled now job o q h = go (next_iteration now q.poll_interval_ms job job.type o) refl
  where
    go :
        (n : Option (IngestJob × ℕ))
        → next_iteration now q.poll_interval_ms job job.type o ≡ n
        → Settled q (record (on_result now job o q).0 { processing = false }) job
    go none e = gone (rw (e, on_result) refl) (subst (NextRun job job.type) e h)
    go (some (j, d)) e = again j (rw (e, on_result) refl) (subst (NextRun job job.type) e h)

-- When the call of a job settles, the queue is as before with `processing` reset, and the job is
-- gone from it or, as a later run under the same name, stands at its end. A job with no end ledger
-- that fetches events or ingests recurrently is never gone.
pub tick_end-Settled :
    (now r : ℕ) (job : IngestJob) (o : Outcome) (q : IngestQueue)
    → Settles job.type o
    → Settled q (tick_end now r job o q).0 job
unfolding tick_end
tick_end-Settled now r job (thrown m) q h = on_error-Settled now r job m q
tick_end-Settled now r job o q h = elim (next_iteration-NextRun now q.poll_interval_ms job h) [
  | inl n ↦ on_result-Settled now job o q n
  | inr (m, e) ↦ absurd (cc)
]
