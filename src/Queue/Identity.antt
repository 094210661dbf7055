-- ===== src/Queue/Identity.antt =====
-- Jobs are neither doubled nor lost by the steps of the queue.
use Prim.Native.String.{String}
use attest_so.Prelude.{
  ℕ, ◌≡◌, ◌∙◌, ◌⊎◌, inl, inr, true, List, [], ◌∷◌, ◌++◌, Has, Has-append, Has-append_left,
  Has-append_right, Has-middle, arith,
}
use attest_so.Queue.Types.{IngestJob, IngestQueue}
use attest_so.Queue.Operations.{
  start, stop, enqueue_fetch_events, enqueue_contract_operations, enqueue_recurring_ingestion,
}
use attest_so.Queue.Tick.{is_continuous, tick_begin}
use attest_so.Queue.Picking.{tick_begin_cases}
use attest_so.Queue.Settling.{Settled, gone, again, SameJob, tick_end-Settled}
use attest_so.Queue.System.{
  System, live, began, Step, starts, stops, enqueues_events, enqueues_operations,
  enqueues_recurring, fires, settles, Reach, here, next,
}

-- A job of this name that fetches or ingests with no end ledger.
abbrev pub IsPerpetual : String → IngestJob → Type 0
IsPerpetual id j = (j.id ≡ id) × (is_continuous j.type j.payload.end_ledger ≡ true)

module _ (P : IngestJob → Type 0) where
  -- A job that is pushed leaves the others where they were.
  live_push :
      (pending flying : List IngestJob) (j : IngestJob)
      → Has P (pending ++ flying)
      → Has P ((pending ++ j ∷ []) ++ flying)
  live_push pending flying j h = elim (Has-append P pending flying h) [
    | inl p ↦ Has-append_left P (pending ++ j ∷ []) flying (Has-append_left P pending (j ∷ []) p)
    | inr f ↦ Has-append_right P (pending ++ j ∷ []) flying f
  ]

  live_take :
      (before after flying : List IngestJob) (j : IngestJob)
      → Has P ((before ++ j ∷ after) ++ flying)
      → Has P ((before ++ after) ++ (flying ++ j ∷ []))
  live_take before after flying j h = elim (Has-append P (before ++ j ∷ after) flying h) [
    | inl p ↦ elim (Has-middle P before j after p) [
      | inl it ↦
          Has-append_right P (before ++ after) (flying ++ j ∷ [])
            (Has-append_right P flying (j ∷ []) (inl it))
      | inr other ↦ Has-append_left P (before ++ after) (flying ++ j ∷ []) other
    ]
    | inr f ↦
        Has-append_right P (before ++ after) (flying ++ j ∷ [])
          (Has-append_left P flying (j ∷ []) f)
  ]

  -- A job that lands is the one, or another that is still there.
  live_land :
      (pending before after : List IngestJob) (j : IngestJob)
      → Has P (pending ++ (before ++ j ∷ after))
      → P j ⊎ Has P (pending ++ (before ++ after))
  live_land pending before after j h = elim (Has-append P pending (before ++ j ∷ after) h) [
    | inl p ↦ inr (Has-append_left P pending (before ++ after) p)
    | inr f ↦ elim (Has-middle P before j after f) [
      | inl it ↦ inl it
      | inr other ↦ inr (Has-append_right P pending (before ++ after) other)
    ]
  ]

SameJob-IsPerpetual :
    {id : String} {j job : IngestJob} → SameJob j job → IsPerpetual id job → IsPerpetual id j
SameJob-IsPerpetual s (e, c) = (s.id ∙ e, rw (s.type, s.end_ledger) c)

pub start-pending :
    (handle : ℕ) (q : IngestQueue) (is : List ℕ)
    → (start handle (q, is)).0.0.pending_jobs ≡ q.pending_jobs
unfolding start
start-pending handle q is = ground arith

fire-Perpetual :
    (id : String) (now : ℕ) (s : System)
    → Has (IsPerpetual id) (live s)
    → Has (IsPerpetual id) (live (began s ((tick_begin now s.queue).0, (tick_begin now s.queue).1)))
fire-Perpetual id now s h = elim (tick_begin_cases now s.queue) [
  | inl (busy, same) ↦ rw same h
  | inr (inl (idle, late, same)) ↦ rw same h
  | inr (inr (q', job, idle, taken, b)) ↦
      rw (taken, b.first.remains)
        (live_take (IsPerpetual id) b.first.before b.first.after s.in_flight job
          (rw b.first.whole at h))
]

settle-Perpetual :
    (id : String) (s : System) (before after : List IngestJob) {job : IngestJob} {q' : IngestQueue}
    → s.in_flight ≡ before ++ job ∷ after
    → Settled s.queue q' job
    → Has (IsPerpetual id) (live s)
    → Has (IsPerpetual id) (q'.pending_jobs ++ (before ++ after))
settle-Perpetual id s before after {job} split (gone e c) h =
    elim (live_land (IsPerpetual id) s.queue.pending_jobs before after job (rw split at h)) [
      | inl it ↦ absurd (cc (it.1, c))
      | inr other ↦ rw e other
    ]
settle-Perpetual id s before after {job} split (again j e c) h =
    elim (live_land (IsPerpetual id) s.queue.pending_jobs before after job (rw split at h)) [
      | inl it ↦ rw e (
          Has-append_left (IsPerpetual id) (s.queue.pending_jobs ++ j ∷ []) (before ++ after) (
            Has-append_right (IsPerpetual id) s.queue.pending_jobs (j ∷ [])
              (inl (SameJob-IsPerpetual c it))))
      | inr other ↦ rw e (live_push (IsPerpetual id) s.queue.pending_jobs (before ++ after) j other)
    ]

Step-Perpetual :
    (id : String) {s t : System}
    → Step s t
    → Has (IsPerpetual id) (live s)
    → Has (IsPerpetual id) (live t)
unfolding stop enqueue_fetch_events enqueue_contract_operations enqueue_recurring_ingestion
Step-Perpetual _ {s} (starts handle) h = rw (start-pending handle s.queue s.intervals) h
Step-Perpetual _ stops h = h
Step-Perpetual _ {s} (enqueues_events _ now start_ledger opts fresh) h =
    live_push _ s.queue.pending_jobs s.in_flight _ h
Step-Perpetual _ {s} (enqueues_operations _ now contract_ids start_ledger opts fresh) h =
    live_push _ s.queue.pending_jobs s.in_flight _ h
Step-Perpetual _ {s} (enqueues_recurring _ now contract_ids start_ledger opts fresh) h =
    live_push _ s.queue.pending_jobs s.in_flight _ h
Step-Perpetual id {s} (fires now handle alive) h = fire-Perpetual id now s h
Step-Perpetual id {s} (settles now r before after job outcome split fits small) h =
    settle-Perpetual id s before after split (tick_end-Settled now r job outcome s.queue fits) h

-- A job that fetches events or ingests recurrently with no end ledger is never dropped: whatever
-- steps follow, failures of any number included, a run of it is pending or in flight.
pub endless_job_survives :
    (id : String) (s t : System)
    → Reach s t
    → Has (IsPerpetual id) (live s)
    → Has (IsPerpetual id) (live t)
endless_job_survives id s _ here h = h
endless_job_survives id s _ (next {t} r step) h =
    Step-Perpetual id step (endless_job_survives id s t r h)
