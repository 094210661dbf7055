-- ===== src/Backfill/Rounds.antt =====
-- What the rounds of a backfill keep: the limit on what it handles, and the checkpoint.
use Prim.Native.String.{String}
use attest_so.Prelude.{
  ℕ, zero, suc, ◌+◌, ◌≤◌, ◌≡◌, refl, ◌⊎◌, inl, inr, ◌&&◌, List, [], ◌∷◌, Option, none, some, length,
  length-append, ltb, leb, ◌==◌, if◌then◌else◌, Bool-cases, Option-cases, ◌&◌, arith,
}
use attest_so.Ingest.Cycle.{has_text}
use attest_so.Ingest.Events.{RawEvent, EventData, parse_all, ordered_events}
use attest_so.Ingest.Recurring.{EventOutcome, Tally}
use attest_so.Backfill.Loop.{
  EventProcessor, BackfillAnswer, BackfillSetting, fetch_threw, rpc_error, answered, number_or,
  Progress, Round, breaks, goes_on, throws, request_of, settle_event, process_events, after_batch,
  on_page, round, LoopEnd, finished, threw, backfill_loop,
}

-- The events and errors that a tally counts.
abbrev pub handled : Tally → ℕ
handled t = t.events_processed + length t.errors

settle_event-handled :
    (e : EventData) (o : EventOutcome) (t : Tally) → handled (settle_event e o t) ≡ handled t + 1
unfolding settle_event
settle_event-handled e o t = elim (Option-cases o.error) [
  | inl fine ↦ rw fine (omega arith)
  | inr (m, failed) ↦ rw failed (
      omega
        (arith, length-append t.errors (("Error processing event " & e.event_id & ": " & m) ∷ [])))
]

settle_event-up :
    (e : EventData) (o : EventOutcome) (t : Tally)
    → t.processed_up_to_ledger ≤ (settle_event e o t).processed_up_to_ledger
unfolding settle_event
settle_event-up e o t = elim (Option-cases o.error) [
  | inl fine ↦ rw fine (ground arith)
  | inr (m, failed) ↦ rw failed (omega arith)
]

BackfillAnswer-cases :
    (a : BackfillAnswer)
    → ((m : String) × (a ≡ fetch_threw m))
      ⊎ ((m : String) × (a ≡ rpc_error m))
      ⊎ ((events : List RawEvent) × (latest : Option ℕ) × (cursor : Option String) × (a
            ≡ answered events latest cursor))
BackfillAnswer-cases (fetch_threw m) = inl (m, refl)
BackfillAnswer-cases (rpc_error m) = inr (inl (m, refl))
BackfillAnswer-cases (answered events latest cursor) = inr (inr (events, latest, cursor, refl))

module _ (processor : EventProcessor) where
  -- What a round, and the loop, leave.
  abbrev pub of_round : Round processor → Progress processor
  of_round (breaks q) = q
  of_round (goes_on q) = q
  of_round (throws m q) = q

  abbrev pub of_end : LoopEnd processor → Progress processor
  of_end (finished q) = q
  of_end (threw m q) = q

  then_loop : (Progress processor → LoopEnd processor) → Round processor → LoopEnd processor
  then_loop next (breaks q) = finished q
  then_loop next (throws m q) = threw m q
  then_loop next (goes_on q) = next q

  -- What a round keeps, while it uses up one of the rounds left, the loop keeps.
  module _ (Inv : ℕ → Progress processor → Type 0) where
    then_loop-keeps :
        (left : ℕ) (next : Progress processor → LoopEnd processor) (r : Round processor)
        → ((q : Progress processor) → Inv left q → (k : ℕ) × Inv k (of_end (next q)))
        → Inv left (of_round r)
        → (k : ℕ) × Inv k (of_end (then_loop next r))
    unfolding then_loop
    then_loop-keeps left next (breaks q) keeps h = (left, h)
    then_loop-keeps left next (throws m q) keeps h = (left, h)
    then_loop-keeps left next (goes_on q) keeps h = keeps q h

    pub backfill_loop-keeps :
        (env : BackfillSetting) (end target left : ℕ) (p : Progress processor)
        → ((n : ℕ) (q : Progress processor)
            → Inv (suc n) q
            → Inv n (of_round (round processor env end q)))
        → Inv left p
        → (k : ℕ) × Inv k (of_end (backfill_loop processor env end target left p))
    unfolding backfill_loop then_loop
    backfill_loop-keeps env end target zero p keeps h = (0, h)
    backfill_loop-keeps env end target (suc left) p keeps h =
        elim (Bool-cases (leb p.current_start_ledger target)) [
          | inr over ↦ (suc left, rw (over, backfill_loop, of_end) h)
          | inl within ↦
              rw (within, backfill_loop, of_end)
                (then_loop-keeps left (backfill_loop processor env end target left)
                  (round processor env end p)
                  (λ q k. backfill_loop-keeps env end target left q keeps k) (keeps left p h))
        ]

  pub process_events-handled :
      (es : List EventData) (t : Tally) (s : processor.Tables)
      → handled (process_events processor es t s).0 ≡ handled t + length es
  unfolding process_events
  process_events-handled [] t s = omega arith
  process_events-handled (e ∷ es) t s =
      let (s', o) = processor.process e s in
      omega (arith, settle_event-handled e o t, process_events-handled es (settle_event e o t) s')

  pub process_events-up :
      (es : List EventData) (t : Tally) (s : processor.Tables)
      → t.processed_up_to_ledger ≤ (process_events processor es t s).0.processed_up_to_ledger
  unfolding process_events
  process_events-up [] t s = omega arith
  process_events-up (e ∷ es) t s =
      let (s', o) = processor.process e s in
      omega (arith, settle_event-up e o t, process_events-up es (settle_event e o t) s')

  -- The checkpoint after a batch, and the tally, which stays.
  after_batch_lem :
      (env : BackfillSetting) (end : ℕ) (p : Progress processor)
      → let q = of_round (after_batch processor env end p) in
        (q.tally ≡ p.tally)
        × (q.checkpoint ≡ (
            if ltb 0 p.tally.processed_up_to_ledger && env.writable
            then p.tally.processed_up_to_ledger
            else p.checkpoint))
  unfolding after_batch
  after_batch_lem env end p =
      elim (Bool-cases (ltb 0 end && leb end p.tally.processed_up_to_ledger)) [
        | inl reached ↦ rw reached (refl, refl)
        | inr more ↦ elim (Bool-cases (has_text p.next_cursor)) [
          | inl cursor ↦ rw (more, cursor) (refl, refl)
          | inr ended ↦ rw (more, ended) (refl, refl)
        ]
      ]

  -- A round that processes no event, and one that processes a page.
  abbrev Quiet : Progress processor → Progress processor → Type 0
  Quiet p q =
      (q.tally.processed_up_to_ledger ≡ p.tally.processed_up_to_ledger)
      × (q.tally.events_processed ≡ p.tally.events_processed)
      × (length q.tally.errors ≤ length p.tally.errors + 1)
      × (q.checkpoint ≡ p.checkpoint)

  abbrev Batch : BackfillSetting → Progress processor → Progress processor → Type 0
  Batch env p q =
      (events : List RawEvent) × (latest : Option ℕ) × (cursor : Option String) × (es : List
        EventData)
      × (env.get_events (p.iteration_count + 1) (request_of processor p)
          ≡ answered events latest cursor)
      × (parse_all env.decoder events ≡ some es)
      × (q.tally ≡ (process_events processor (ordered_events es) p.tally p.tables).0)
      × (q.checkpoint ≡ (
          if ltb 0 q.tally.processed_up_to_ledger && env.writable
          then q.tally.processed_up_to_ledger
          else p.checkpoint))

  unfoldable pub Effect : BackfillSetting → Progress processor → Round processor → Type 0
  Effect env p r = Quiet p (of_round r) ⊎ Batch env p (of_round r)

  quiet :
      (env : BackfillSetting) (p : Progress processor) (r : Round processor)
      → Quiet p (of_round r)
      → Effect env p r
  unfolding Effect
  quiet env p r h = inl h

  batch :
      (env : BackfillSetting) (p : Progress processor) (r : Round processor)
      → Batch env p (of_round r)
      → Effect env p r
  unfolding Effect
  batch env p r h = inr h

  on_page_cases :
      (env : BackfillSetting) (end : ℕ) (events : List RawEvent) (latest : Option ℕ)
      (cursor : Option String) (p : Progress processor)
      → env.get_events (p.iteration_count + 1) (request_of processor p)
        ≡ answered events latest cursor
      → Effect env p (
          on_page processor env end events latest cursor
            (record p { iteration_count = p.iteration_count + 1 }))
  unfolding on_page
  on_page_cases env end [] latest cursor p answer =
      let q : Progress processor = record p {
        iteration_count = p.iteration_count + 1;
        next_cursor = if number_or latest 0 == 0 then cursor else none;
      } in
      quiet env p (breaks q) (refl, refl, omega arith, refl)
  on_page_cases env end (r ∷ rs) latest cursor p answer =
      elim (Option-cases (parse_all env.decoder (r ∷ rs))) [
        | inl bad ↦
            let q : Progress processor = record p {
              iteration_count = p.iteration_count + 1;
              next_cursor = if number_or latest 0 == 0 then cursor else none;
            } in
            rw (bad, on_page)
              (quiet env p (throws env.decoder.error_message q) (refl, refl, omega arith, refl))
        | inr (es, parsed) ↦
            let (t, s) = process_events processor (ordered_events es) p.tally p.tables in
            let q : Progress processor = record p {
              iteration_count = p.iteration_count + 1;
              next_cursor = if number_or latest 0 == 0 then cursor else none;
              tally = t;
              tables = s;
            } in
            let (tally, saved) = after_batch_lem env end q in
            rw (parsed, on_page)
              (batch env p _ (r ∷ rs, latest, cursor, es, answer, parsed, tally, rw tally saved))
      ]

  pub round_cases :
      (env : BackfillSetting) (end : ℕ) (p : Progress processor)
      → Effect env p (round processor env end p)
  unfolding round
  round_cases env end p =
      elim (BackfillAnswer-cases
        (env.get_events (p.iteration_count + 1) (request_of processor p))) [
          | inl (m, fetch) ↦ rw (fetch, round) (quiet env p _ (refl, refl, omega arith, refl))
          | inr (inl (m, refused)) ↦
              rw (refused, round)
                (quiet env p _ (
                  refl,
                  refl,
                  omega (arith, length-append p.tally.errors (("RPC error: " & m) ∷ [])),
                  refl,
                ))
          | inr (inr (events, latest, cursor, answer)) ↦
              rw (answer, round) (on_page_cases env end events latest cursor p answer)
        ]
