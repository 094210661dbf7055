-- ===== src/Queue/Picking.antt =====
-- Which job `tick` takes from the queue, and what is left.
use mathlib.Core.List.{Perm, perm_middle}
use attest_so.Prelude.{
  ℕ, suc, ◌≡◌, refl, ap, ◌⊎◌, inl, inr, Bool, true, false, List, [], ◌∷◌, ◌++◌, none, some, All,
  Bool-cases, Option-cases, arith,
}
use attest_so.Queue.Types.{IngestJob, IngestQueue, started_job}
use attest_so.Queue.Tick.{find_index, splice_one, is_ready, take_ready, tick_begin}

-- `x` is the first element of the list that passes the test; `rest` is the list without it.
pub record IsFirst {ℓ} {A : Type ℓ} (p : A → Bool) (xs : List A) (x : A) (rest : List A)
    : Type ℓ where
  pub before : List A
  pub after : List A
  pub whole : xs ≡ before ++ x ∷ after
  pub remains : rest ≡ before ++ after
  pub passes : p x ≡ true
  pub earlier : All (λ y. p y ≡ false) before

module _ {ℓ} {A : Type ℓ} (p : A → Bool) where
  find_index-none : (xs : List A) → find_index p xs ≡ none → All (λ y. p y ≡ false) xs
  unfolding find_index
  find_index-none [] h = tt
  find_index-none (x ∷ xs) h = elim (Bool-cases (p x)) [
    | inl passed ↦ absurd (ground (arith, passed))
    | inr failed ↦ (failed, find_index-none xs (ground (arith, failed)))
  ]

  IsFirst-cons :
      {x y : A} {xs rest : List A}
      → p x ≡ false
      → IsFirst p xs y rest
      → IsFirst p (x ∷ xs) y (x ∷ rest)
  IsFirst-cons {x} failed f = record {
    before = x ∷ f.before;
    after = f.after;
    whole = ap (λ r. x ∷ r) f.whole;
    remains = ap (λ r. x ∷ r) f.remains;
    passes = f.passes;
    earlier = (failed, f.earlier);
  }

  splice_one-find_index :
      (xs : List A) (i : ℕ)
      → find_index p xs ≡ some i
      → (y : A) × (rest : List A) × (splice_one i xs ≡ some (y, rest)) × IsFirst p xs y rest
  unfolding find_index splice_one
  splice_one-find_index [] i h = cc
  splice_one-find_index (x ∷ xs) i h = elim (Bool-cases (p x)) [
    | inl passed ↦
        let e : i ≡ 0 = ground (arith, passed) in
        (
          x,
          xs,
          rw e refl,
          record {
            before = [];
            after = xs;
            whole = refl;
            remains = refl;
            passes = passed;
            earlier = tt;
          },
        )
    | inr failed ↦ elim (Option-cases (find_index p xs)) [
      | inl nowhere ↦ absurd (ground (arith, failed, nowhere))
      | inr (k, found) ↦
          let e : i ≡ suc k = ground (arith, failed, found) in
          let (y, rest, cut, first) = splice_one-find_index xs k found in
          (y, x ∷ rest, rw (e, splice_one, cut) refl, IsFirst-cons failed first)
    ]
  ]

-- What `tick` takes from the queue: nothing if no job is due, and else the first that is.
take_ready_cases :
    (now : ℕ) (jobs : List IngestJob)
    → ((take_ready now jobs ≡ none) × All (λ j. is_ready now j ≡ false) jobs)
      ⊎ ((job : IngestJob) × (rest : List IngestJob) × (take_ready now jobs ≡ some (job, rest))
          × IsFirst (is_ready now) jobs job rest)
unfolding take_ready
take_ready_cases now jobs = elim (Option-cases (find_index (is_ready now) jobs)) [
  | inl nowhere ↦ inl (rw (nowhere, take_ready) refl, find_index-none (is_ready now) jobs nowhere)
  | inr (i, found) ↦
      let (y, rest, cut, first) = splice_one-find_index (is_ready now) jobs i found in
      inr (y, rest, rw (found, take_ready) cut, first)
]

IsFirst-perm {ℓ} :
    {A : Type ℓ} {p : A → Bool} {xs rest : List A} {x : A}
    → IsFirst p xs x rest
    → Perm xs (x ∷ rest)
IsFirst-perm f = rw (f.whole, f.remains) (perm_middle f.before f.after)

-- What `tick_begin` does to an idle queue.
pub record Began (now : ℕ) (q q' : IngestQueue) (job : IngestJob) : Type 0 where
  pub first : IsFirst (is_ready now) q.pending_jobs job q'.pending_jobs
  pub busy : q'.processing ≡ true
  pub running : q'.is_running ≡ q.is_running
  pub handle : q'.interval_handle ≡ q.interval_handle

-- A tick changes nothing while a job is processed, and nothing while no job is due. Otherwise it
-- takes the first job that is due, in the order of the queue, sets `processing`, and leaves the
-- interval alone.
pub tick_begin_cases :
    (now : ℕ) (q : IngestQueue)
    → ((q.processing ≡ true) × (tick_begin now q ≡ (q, none, [])))
      ⊎ ((q.processing ≡ false)
          × All (λ j. is_ready now j ≡ false) q.pending_jobs
          × (tick_begin now q ≡ (q, none, [])))
      ⊎ ((q' : IngestQueue) × (job : IngestJob) × (q.processing ≡ false)
          × (tick_begin now q ≡ (q', some job, started_job job ∷ []))
          × Began now q q' job)
unfolding tick_begin
tick_begin_cases now q = elim (Bool-cases q.processing) [
  | inl busy ↦ inl (busy, ground arith)
  | inr idle ↦ elim (take_ready_cases now q.pending_jobs) [
    | inl (nothing, late) ↦ inr (inl (idle, late, ground arith))
    | inr (job, rest, taken, first) ↦ inr (
        inr (
          record q { pending_jobs = rest; processing = true },
          job,
          idle,
          ground arith,
          record { first = first; busy = refl; running = refl; handle = refl },
        ))
  ]
]
