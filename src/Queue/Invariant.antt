-- ===== src/Queue/Invariant.antt =====
-- What holds of the queue between two steps of the event loop, whatever the order of the steps.
use attest_so.Prelude.{
  ℕ, suc, ◌+◌, ◌≤◌, ◌≡◌, refl, ap, inl, inr, Bool, true, false, List, [], ◌∷◌, ◌++◌, Option, none,
  some, length, length-append, arith, ◌∙◌,
}
use attest_so.Queue.Types.{IngestJob, IngestQueue}
use attest_so.Queue.Operations.{
  start, stop, clear_interval, enqueue_fetch_events, enqueue_contract_operations,
  enqueue_recurring_ingestion, QueueOptions, new_queue,
}
use attest_so.Queue.Tick.{tick_begin}
use attest_so.Queue.Settling.{Settled, gone, again, tick_end-Settled}
use attest_so.Queue.Picking.{tick_begin_cases}
use attest_so.Queue.System.{
  System, began, Step, starts, stops, enqueues_events, enqueues_operations, enqueues_recurring,
  fires, settles, Reach, here, next, initial,
}

abbrev busy_count : Bool → ℕ
busy_count true = 1
busy_count false = 0

abbrev pub handles : Option ℕ → List ℕ
handles none = []
handles (some h) = h ∷ []

abbrev is_set : Option ℕ → Bool
is_set none = false
is_set (some h) = true

-- At most one job is in flight, and exactly when the queue says that it is processing; the queue
-- runs exactly when it has an interval, and that one is the only live interval.
pub record Inv (s : System) : Type 0 where
  pub exclusive : length s.in_flight ≡ busy_count s.queue.processing
  pub single_interval : s.intervals ≡ handles s.queue.interval_handle
  pub running : s.queue.is_running ≡ is_set s.queue.interval_handle

initial-Inv : (o : QueueOptions) → Inv (initial o)
unfolding new_queue
initial-Inv o = record { exclusive = refl; single_interval = refl; running = refl }

start-Inv :
    (handle : ℕ) (s : System)
    → Inv s
    → Inv (record s {
      queue = (start handle (s.queue, s.intervals)).0.0;
      intervals = (start handle (s.queue, s.intervals)).0.1;
    })
unfolding start
start-Inv handle s v = ground arith

clear_interval_self : (h : ℕ) → clear_interval h (h ∷ []) ≡ []
unfolding clear_interval
clear_interval_self h = ground arith

stop-Inv :
    (s : System)
    → Inv s
    → Inv (record s {
      queue = (stop (s.queue, s.intervals)).0.0;
      intervals = (stop (s.queue, s.intervals)).0.1;
    })
unfolding stop
stop-Inv s v = grind (arith, clear_interval_self)

fire-Inv :
    (now : ℕ) (s : System)
    → Inv s
    → Inv (began s ((tick_begin now s.queue).0, (tick_begin now s.queue).1))
fire-Inv now s v = elim (tick_begin_cases now s.queue) [
  | inl (busy, same) ↦ rw same v
  | inr (inl (idle, late, same)) ↦ rw same v
  | inr (inr (q', job, idle, taken, b)) ↦ rw taken record {
    exclusive = ground (arith, length-append s.in_flight (job ∷ []));
    single_interval = ground arith;
    running = ground arith;
  }
]

settle-Inv :
    (s : System) (before after : List IngestJob) (job : IngestJob) (q' : IngestQueue)
    → s.in_flight ≡ before ++ job ∷ after
    → (q'.processing ≡ false)
      × (q'.interval_handle ≡ s.queue.interval_handle)
      × (q'.is_running ≡ s.queue.is_running)
    → Inv s
    → Inv (record s { queue = q'; in_flight = before ++ after })
settle-Inv s before after job q' split (idle, handle, running) v =
    let one : length s.in_flight ≤ 1 = at_most_one s.queue.processing v.exclusive in
    let whole : length s.in_flight ≡ length before + suc (length after) =
      ap length split ∙ length-append before (job ∷ after) in
    record {
      exclusive = ground (arith, length-append before after);
      single_interval = ground arith;
      running = ground arith;
    }
  where
    at_most_one : (b : Bool) → length s.in_flight ≡ busy_count b → length s.in_flight ≤ 1
    at_most_one true e = omega arith
    at_most_one false e = omega arith

Settled-fields :
    {q q' : IngestQueue} {job : IngestJob}
    → Settled q q' job
    → (q'.processing ≡ false)
      × (q'.interval_handle ≡ q.interval_handle)
      × (q'.is_running ≡ q.is_running)
Settled-fields (gone e c) = rw e (refl, refl, refl)
Settled-fields (again j e c) = rw e (refl, refl, refl)

Step-Inv : {s t : System} → Step s t → Inv s → Inv t
unfolding enqueue_fetch_events enqueue_contract_operations enqueue_recurring_ingestion
Step-Inv {s} (starts handle) v = start-Inv handle s v
Step-Inv {s} stops v = stop-Inv s v
Step-Inv (enqueues_events id now start_ledger opts fresh) v = record {
  exclusive = v.exclusive;
  single_interval = v.single_interval;
  running = v.running;
}
Step-Inv (enqueues_operations id now contract_ids start_ledger opts fresh) v = record {
  exclusive = v.exclusive;
  single_interval = v.single_interval;
  running = v.running;
}
Step-Inv (enqueues_recurring id now contract_ids start_ledger opts fresh) v = record {
  exclusive = v.exclusive;
  single_interval = v.single_interval;
  running = v.running;
}
Step-Inv {s} (fires now handle alive) v = fire-Inv now s v
Step-Inv {s} (settles now r before after job outcome split fits small) v =
    settle-Inv s before after job _ split
      (Settled-fields (tick_end-Settled now r job outcome s.queue fits)) v

Reach-Inv : {s t : System} → Reach s t → Inv s → Inv t
Reach-Inv here v = v
Reach-Inv (next r step) v = Step-Inv step (Reach-Inv r v)

-- From the start of the process on, whatever the order of calls, timers and settled fetches: at
-- most one job is in flight, and one is exactly when `processing` is set; `is_running` holds
-- exactly when the queue has an interval, and that is the only live interval.
pub queue_invariant : (o : QueueOptions) (t : System) → Reach (initial o) t → Inv t
queue_invariant o t r = Reach-Inv r (initial-Inv o)
