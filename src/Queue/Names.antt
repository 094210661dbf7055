-- ===== src/Queue/Names.antt =====
-- The names of the live jobs.
use mathlib.Core.List.{Mem, Nodup, Nodup-cons, Nodup-nil, Perm, perm_append_comm, perm_middle}
use mathlib.Core.List.Perm
use attest_so.Prelude.{ℕ, ◌≡◌, inl, inr, List, [], ◌∷◌, ◌++◌, append_assoc}
use attest_so.Queue.Types.{IngestJob, IngestQueue}
use attest_so.Queue.Operations.{
  stop, enqueue_fetch_events, enqueue_contract_operations, enqueue_recurring_ingestion,
  QueueOptions, new_queue,
}
use attest_so.Queue.Identity.{start-pending}
use attest_so.Queue.Tick.{tick_begin}
use attest_so.Queue.Picking.{tick_begin_cases}
use attest_so.Queue.Settling.{Settled, gone, again, tick_end-Settled}
use attest_so.Queue.System.{
  System, ids, live, began, Step, starts, stops, enqueues_events, enqueues_operations,
  enqueues_recurring, fires, settles, Reach, here, next, initial,
}

-- Every live job has a name of its own.
abbrev pub HasUniqueIds : System → Type 0
HasUniqueIds s = Nodup (ids (live s))

ids-perm : {xs ys : List IngestJob} → Perm xs ys → Nodup (ids xs) → Nodup (ids ys)
ids-perm p u = Perm.nodup (Perm.map (λ k. IngestJob.id k) p) u

-- A job that is pushed with a new name.
push_unique :
    (pending flying : List IngestJob) (j : IngestJob)
    → (¬ Mem j.id (ids (pending ++ flying)))
    → Nodup (ids (pending ++ flying))
    → Nodup (ids ((pending ++ j ∷ []) ++ flying))
push_unique pending flying j fresh u =
    let p : Perm (j ∷ (pending ++ flying)) ((pending ++ j ∷ []) ++ flying) =
      rw (append_assoc pending (j ∷ []) flying) (Perm.symm (perm_middle pending flying)) in
    ids-perm p (Nodup-cons.1 (fresh, u))

take-perm :
    (before after flying : List IngestJob) (j : IngestJob)
    → Perm ((before ++ j ∷ after) ++ flying) ((before ++ after) ++ (flying ++ j ∷ []))
take-perm before after flying j = Perm.trans (Perm.append_right flying (perm_middle before after)) (
    rw (← append_assoc (before ++ after) flying (j ∷ []))
      (perm_append_comm (j ∷ []) ((before ++ after) ++ flying)))

land-perm :
    (pending before after : List IngestJob) (j : IngestJob)
    → Perm (pending ++ (before ++ j ∷ after)) (j ∷ (pending ++ (before ++ after)))
land-perm pending before after j =
    Perm.trans (Perm.append_left pending (perm_middle before after))
      (perm_middle pending (before ++ after))

fire_unique :
    (now : ℕ) (s : System)
    → HasUniqueIds s
    → HasUniqueIds (began s ((tick_begin now s.queue).0, (tick_begin now s.queue).1))
fire_unique now s u = elim (tick_begin_cases now s.queue) [
  | inl (busy, same) ↦ rw same u
  | inr (inl (idle, late, same)) ↦ rw same u
  | inr (inr (q', job, idle, taken, b)) ↦
      rw (taken, b.first.remains)
        (ids-perm (take-perm b.first.before b.first.after s.in_flight job) (rw b.first.whole at u))
]

settle_unique :
    (s : System) (before after : List IngestJob) {job : IngestJob} {q' : IngestQueue}
    → s.in_flight ≡ before ++ job ∷ after
    → Settled s.queue q' job
    → HasUniqueIds s
    → Nodup (ids (q'.pending_jobs ++ (before ++ after)))
settle_unique s before after {job} split settled u =
    let v =
      Nodup-cons.0 (ids-perm (land-perm s.queue.pending_jobs before after job) (rw split at u)) in
    go settled v.0 v.1
  where
    go :
        {q' : IngestQueue}
        → Settled s.queue q' job
        → (¬ Mem job.id (ids (s.queue.pending_jobs ++ (before ++ after))))
        → Nodup (ids (s.queue.pending_jobs ++ (before ++ after)))
        → Nodup (ids (q'.pending_jobs ++ (before ++ after)))
    go (gone e c) fresh w = rw e w
    go (again j e same) fresh w =
        rw e (push_unique s.queue.pending_jobs (before ++ after) j (rw same.id fresh) w)

Step-unique : {s t : System} → Step s t → HasUniqueIds s → HasUniqueIds t
unfolding stop enqueue_fetch_events enqueue_contract_operations enqueue_recurring_ingestion
Step-unique {s} (starts handle) u = rw (start-pending handle s.queue s.intervals) u
Step-unique stops u = u
Step-unique {s} (enqueues_events id now start_ledger opts fresh) u =
    push_unique s.queue.pending_jobs s.in_flight _ fresh u
Step-unique {s} (enqueues_operations id now contract_ids start_ledger opts fresh) u =
    push_unique s.queue.pending_jobs s.in_flight _ fresh u
Step-unique {s} (enqueues_recurring id now contract_ids start_ledger opts fresh) u =
    push_unique s.queue.pending_jobs s.in_flight _ fresh u
Step-unique {s} (fires now handle alive) u = fire_unique now s u
Step-unique {s} (settles now r before after job outcome split fits small) u =
    settle_unique s before after split (tick_end-Settled now r job outcome s.queue fits) u

Reach-unique : {s t : System} → Reach s t → HasUniqueIds s → HasUniqueIds t
Reach-unique here u = u
Reach-unique (next r step) u = Step-unique step (Reach-unique r u)

-- From the start of the process on, no two jobs that are pending or in flight have one name, if
-- each enqueued job gets a name that no live job has: no job is ever queued twice.
pub names_stay_unique : (o : QueueOptions) (t : System) → Reach (initial o) t → HasUniqueIds t
unfolding new_queue
names_stay_unique o t r = Reach-unique r Nodup-nil
