-- ===== src/Backfill/Outcome.antt =====
-- What a call of `performBackfill` reports, and where it leaves the checkpoint.
use Prim.Native.String.{String}
use attest_so.Prelude.{
  ℕ, ◌+◌, ◌*◌, ◌≤◌, ◌≡◌, refl, ap, ◌⊎◌, inl, inr, Bool, true, false, ◌&&◌, List, [], ◌∷◌, Option,
  length, length-append, ltb, ◌==◌, if◌then◌else◌, Bool-cases, ◌&◌, arith,
}
use attest_so.Ingest.Cycle.{EventsRequest}
use attest_so.Ingest.Events.{RawEvent, ordered_events}
use attest_so.Ingest.Ordering.{ordered_events-perm, length-of_perm}
use attest_so.Ingest.Recurring.{Latest, get_latest, sequence, without_sequence, unreachable}
use attest_so.Ingest.Tallies.{length-parse_all}
use attest_so.Backfill.Loop.{
  EventProcessor, BackfillSetting, answered, number_or, Progress, request_of, round, LoopEnd,
  finished, threw, backfill_loop,
}
use attest_so.Backfill.Call.{BackfillEnd, first_progress, run_to, finish, perform_backfill}
use attest_so.Backfill.Rounds.{
  handled, of_round, of_end, backfill_loop-keeps, process_events-handled, process_events-up, Effect,
  round_cases,
}

-- No answer of the node has more than `limit` events.
abbrev pub PagesHaveAtMost : ℕ → BackfillSetting → Type 0
PagesHaveAtMost limit env =
    (n : ℕ) (r : EventsRequest) (events : List RawEvent) (latest : Option ℕ)
    (cursor : Option String)
    → env.get_events n r ≡ answered events latest cursor
    → length events ≤ limit

module _ (processor : EventProcessor) where
  round-handled :
      (limit : ℕ) (env : BackfillSetting) (end : ℕ) (p : Progress processor)
      → 1 ≤ limit
      → PagesHaveAtMost limit env
      → handled (of_round processor (round processor env end p)).tally ≤ handled p.tally + limit
  unfolding Effect
  round-handled limit env end p one most = elim (round_cases processor env end p) [
    | inl (same, count, errors, saved) ↦ omega arith
    | inr (events, latest, cursor, es, answer, parsed, tally, saved) ↦ omega (
      arith,
      ap handled tally,
      process_events-handled processor (ordered_events es) p.tally p.tables,
      length-of_perm (ordered_events-perm es),
      length-parse_all env.decoder events parsed,
      most (p.iteration_count + 1) (request_of processor p) events latest cursor answer,
    )
  ]

  backfill_loop-handled :
      (limit : ℕ) (env : BackfillSetting) (end target : ℕ) (p : Progress processor)
      → 1 ≤ limit
      → PagesHaveAtMost limit env
      → handled (of_end processor (backfill_loop processor env end target 50 p)).tally
        ≤ handled p.tally + 50 * limit
  backfill_loop-handled limit env end target p one most =
      let (k, h) =
        backfill_loop-keeps processor
          (λ n q. handled q.tally + n * limit ≤ handled p.tally + 50 * limit) env end target 50 p
          (λ n q h. omega (arith, round-handled limit env end q one most)) (omega arith) in
      grind arith

  -- Where the loop may have ended: where it began, or after rounds up to some ledger.
  abbrev Reached : BackfillSetting → ℕ → Progress processor → LoopEnd processor → Type 0
  Reached env end p e =
      (of_end processor e ≡ p) ⊎ ((target : ℕ) × (e ≡ backfill_loop processor env end target 50 p))

  -- A call that finds a database and contracts ends as a loop does.
  perform_backfill_lem :
      (P : BackfillEnd processor → Type 0) (env : BackfillSetting) (start end : Option ℕ)
      (stored : ℕ) (s : processor.Tables)
      → env.connected ≡ true
      → (length env.contract_ids == 0) ≡ false
      → ((e : LoopEnd processor)
          → Reached env (number_or end 0) (first_progress processor start stored s) e
          → P (finish processor e))
      → P (perform_backfill processor env start end stored s)
  unfolding perform_backfill
  perform_backfill_lem P env start end stored s connected contracts ends =
      rw (connected, contracts, perform_backfill) (after (get_latest env.latest 3 1))
    where
      p : Progress processor
      p = first_progress processor start stored s

      after :
          (l : Latest)
          → P (elim l [
            | unreachable m ↦ finish processor (threw m p)
            | without_sequence ↦
                if number_or end 0 == 0
                then finish processor (finished p)
                else run_to processor env (number_or end 0) (number_or end 0) p
            | sequence latest ↦ run_to processor env (number_or end 0) (number_or end latest) p
          ])
      after (unreachable m) = ends (threw m p) (inl refl)
      after without_sequence = elim (Bool-cases (number_or end 0 == 0)) [
        | inl ended ↦ rw ended (ends (finished p) (inl refl))
        | inr given ↦ rw given (ends _ (inr (number_or end 0, refl)))
      ]
      after (sequence latest) = ends _ (inr (number_or end latest, refl))

  finish-checkpoint :
      (e : LoopEnd processor)
      → let r = finish processor e in
        (r.checkpoint ≡ (of_end processor e).checkpoint)
        × (r.result.processed_up_to_ledger ≡ (of_end processor e).tally.processed_up_to_ledger)
        × (r.result.events_processed ≡ (of_end processor e).tally.events_processed)
        × (length r.result.errors ≤ length (of_end processor e).tally.errors + 1)
  finish-checkpoint (finished p) = (refl, refl, refl, omega arith)
  finish-checkpoint (threw m p) = (
    refl,
    refl,
    refl,
    omega (arith, length-append p.tally.errors (("Backfill failed: " & m) ∷ [])),
  )

-- A call of `performBackfill` that finds the database and contracts handles a bounded number of
-- events, whatever the node answers: if no page has more than `limit` events, and `limit` is not 0, the
-- events that it processes and the errors that it reports are together at most 50 times `limit`, and
-- one.
pub perform_backfill_bounds :
    (processor : EventProcessor) (env : BackfillSetting) (limit : ℕ) (start end : Option ℕ)
    (stored : ℕ) (s : processor.Tables)
    → env.connected ≡ true
    → (length env.contract_ids == 0) ≡ false
    → 1 ≤ limit
    → PagesHaveAtMost limit env
    → let r = (perform_backfill processor env start end stored s).result in
      r.events_processed + length r.errors ≤ 50 * limit + 1
perform_backfill_bounds processor env limit start end stored s connected contracts one most =
    perform_backfill_lem processor
      (λ r. r.result.events_processed + length r.result.errors ≤ 50 * limit + 1) env start end
      stored s connected contracts
      (λ e reached.
        let (saved, up, count, errors) = finish-checkpoint processor e in
        elim reached [
          | inl same ↦ omega (arith, ap (λ q. handled q.tally) same)
          | inr (target, run) ↦ omega (
            arith,
            ap (λ x. handled (of_end processor x).tally) run,
            backfill_loop-handled processor limit env (number_or end 0) target
                (first_progress processor start stored s) one most,
          )
        ])

-- The reported ledger and the checkpoint, from the ledger `first` and the checkpoint `stored` on.
abbrev pub Moved : ℕ → ℕ → ℕ → ℕ → ℕ → Type 0
Moved first stored count processed checkpoint =
    (first ≤ processed)
    × ((checkpoint ≡ processed)
        ⊎ ((count ≡ 0) × (checkpoint ≡ stored))
        ⊎ ((processed ≡ 0) × (checkpoint ≡ stored)))

saved-Moved :
    (first stored count count' old up checkpoint saved : ℕ) (writable : Bool)
    → writable ≡ true
    → saved ≡ (if ltb 0 up && writable then up else checkpoint)
    → Moved first stored count old checkpoint
    → old ≤ up
    → Moved first stored count' up saved
saved-Moved first stored count count' old up checkpoint saved writable w e (h, k) le =
    elim (Bool-cases (ltb 0 up)) [
      | inl positive ↦ (omega arith, inl (rw e (rw (positive, w) refl)))
      | inr nothing ↦
          let kept : saved ≡ checkpoint = rw e (rw nothing refl) in
          elim k [
            | inl same ↦ (omega arith, inl (ground (arith, kept)))
            | inr (inl (none_yet, stays)) ↦
                (omega arith, inr (inr (ground arith, ground (arith, kept))))
            | inr (inr (at_zero, stays)) ↦
                (omega arith, inr (inr (ground arith, ground (arith, kept))))
          ]
    ]

module _ (processor : EventProcessor) where
  abbrev MovedTo : ℕ → ℕ → Progress processor → Type 0
  MovedTo first stored q =
      Moved first stored q.tally.events_processed q.tally.processed_up_to_ledger q.checkpoint

  round-MovedTo :
      (first stored : ℕ) (env : BackfillSetting) (end : ℕ) (p : Progress processor)
      → env.writable ≡ true
      → MovedTo first stored p
      → MovedTo first stored (of_round processor (round processor env end p))
  unfolding Effect
  round-MovedTo first stored env end p writable h = elim (round_cases processor env end p) [
    | inl (same, count, errors, saved) ↦ rw (same, count, saved) h
    | inr (events, latest, cursor, es, answer, parsed, tally, saved) ↦
        let up : p.tally.processed_up_to_ledger
            ≤ (of_round processor (round processor env end p)).tally.processed_up_to_ledger =
          rw tally (process_events-up processor (ordered_events es) p.tally p.tables) in
        saved-Moved first stored p.tally.events_processed _ p.tally.processed_up_to_ledger _
          p.checkpoint _ env.writable writable saved h up
  ]

  Reached-MovedTo :
      (env : BackfillSetting) (end : ℕ) (start : Option ℕ) (stored : ℕ) (s : processor.Tables)
      (e : LoopEnd processor)
      → env.writable ≡ true
      → Reached processor env end (first_progress processor start stored s) e
      → MovedTo (number_or start 0) stored (of_end processor e)
  Reached-MovedTo env end start stored s e writable (inl same) =
      rw same (omega arith, inr (inl (refl, refl)))
  Reached-MovedTo env end start stored s e writable (inr (target, run)) =
      rw run
        (backfill_loop-keeps processor (λ n q. MovedTo (number_or start 0) stored q) env end target
          50 (first_progress processor start stored s)
          (λ n q h. round-MovedTo (number_or start 0) stored env end q writable h)
          (omega arith, inr (inl (refl, refl)))).1

-- A call that finds the database and contracts, and can write the checkpoint, never reports a
-- ledger before its start; and it leaves the checkpoint at the ledger that it reports, also where
-- the stored one was further on, unless it has processed no event, or none behind ledger 0: then the
-- checkpoint may stay.
pub perform_backfill-checkpoint :
    (processor : EventProcessor) (env : BackfillSetting) (start end : Option ℕ) (stored : ℕ)
    (s : processor.Tables)
    → env.connected ≡ true
    → (length env.contract_ids == 0) ≡ false
    → env.writable ≡ true
    → let r = perform_backfill processor env start end stored s in
      Moved
        (number_or start 0)
        stored
        r.result.events_processed
        r.result.processed_up_to_ledger
        r.checkpoint
perform_backfill-checkpoint processor env start end stored s connected contracts writable =
    perform_backfill_lem processor
      (λ r.
        Moved (number_or start 0) stored r.result.events_processed r.result.processed_up_to_ledger
          r.checkpoint)
      env start end stored s connected contracts
      (λ e reached.
        let (saved, up, count, errors) = finish-checkpoint processor e in
        rw (saved, up, count)
          (Reached-MovedTo processor env (number_or end 0) start stored s e writable reached))
