-- ===== src/Backfill/Skipping.antt =====
-- Where the next page of a backfill begins.
use Prim.Native.String.{String}
use attest_so.Prelude.{
  length, length-append, ◌&◌, ℕ, suc, ◌+◌, ◌≤◌, ◌≡◌, refl, sym, ◌∙◌, ap, inl, inr, false, ◌&&◌,
  List, [], ◌∷◌, Option, none, some, ltb, leb, ◌==◌, if◌then◌else◌, Bool-cases, Option-cases, All,
  arith,
}
use attest_so.Ingest.Cycle.{from_ledger}
use attest_so.Ingest.Events.{
  RawEvent, EventData, Decoder, parse_event_data, parse_all, ordered_events,
}
use attest_so.Ingest.Ordering.{All-ordered_events}
use attest_so.Ingest.Recurring.{EventOutcome, Tally}
use attest_so.Backfill.Loop.{
  EventProcessor, BackfillSetting, answered, number_or, Progress, goes_on, request_of, settle_event,
  process_events, after_batch, on_page, round,
}
use attest_so.Backfill.Rounds.{of_round, process_events-up}

parse_event_data-ledger :
    (d : Decoder) (r : RawEvent) (e : EventData)
    → parse_event_data d r ≡ some e
    → e.ledger ≡ r.ledger
unfolding parse_event_data
parse_event_data-ledger d r e h = ground arith

parse_all-ledgers :
    (n : ℕ) (d : Decoder) (rs : List RawEvent) {es : List EventData}
    → parse_all d rs ≡ some es
    → All (λ e. e.ledger ≤ n) es
    → All (λ r. r.ledger ≤ n) rs
unfolding parse_all
parse_all-ledgers n d [] h k = tt
parse_all-ledgers n d (r ∷ rs) {es} h k = elim (Option-cases (parse_event_data d r)) [
  | inl bad ↦ absurd (ground (arith, bad))
  | inr (e, good) ↦ elim (Option-cases (parse_all d rs)) [
    | inl bad ↦ absurd (ground (arith, good, bad))
    | inr (rest, parsed) ↦
        let same : es ≡ e ∷ rest = ground (arith, good, parsed) in
        let (first, others) = rw same at k in
        (omega (arith, parse_event_data-ledger d r e good), parse_all-ledgers n d rs parsed others)
  ]
]

reported :
    (latest : ℕ) (cursor : Option String)
    → (if number_or (some (suc latest)) 0 == 0 then cursor else none) ≡ none
reported latest cursor =
    let positive : (suc latest == 0) ≡ false = ground arith in rw positive (rw positive refl)

module _ (processor : EventProcessor) where
  settle_event-errors :
      (e : EventData) (o : EventOutcome) (t : Tally)
      → length t.errors ≤ length (settle_event e o t).errors
  unfolding settle_event
  settle_event-errors e o t = elim (Option-cases o.error) [
    | inl fine ↦ rw fine (omega arith)
    | inr (m, failed) ↦ rw failed (
        omega (
          arith,
          length-append t.errors (("Error processing event " & e.event_id & ": " & m) ∷ []),
        ))
  ]

  process_events-errors :
      (es : List EventData) (t : Tally) (s : processor.Tables)
      → length t.errors ≤ length (process_events processor es t s).0.errors
  unfolding process_events
  process_events-errors [] t s = omega arith
  process_events-errors (e ∷ es) t s =
      let (s', o) = processor.process e s in
      omega (arith, settle_event-errors e o t, process_events-errors es (settle_event e o t) s')

  -- An event that adds no error is processed.
  settle_event-covers :
      (e : EventData) (o : EventOutcome) (t : Tally)
      → length (settle_event e o t).errors ≤ length t.errors
      → e.ledger ≤ (settle_event e o t).processed_up_to_ledger
  unfolding settle_event
  settle_event-covers e o t fine = elim (Option-cases o.error) [
    | inl fine_ ↦ rw fine_ (ground arith)
    | inr (m, failed) ↦ absurd (
        omega (
          arith,
          rw failed at fine,
          length-append t.errors (("Error processing event " & e.event_id & ": " & m) ∷ []),
        ))
  ]

  process_events-covers :
      (es : List EventData) (t : Tally) (s : processor.Tables)
      → length (process_events processor es t s).0.errors ≤ length t.errors
      → let t' = (process_events processor es t s).0 in
        All (λ e. e.ledger ≤ t'.processed_up_to_ledger) es
  unfolding process_events
  process_events-covers [] t s fine = tt
  process_events-covers (e ∷ es) t s fine =
      let (s', o) = processor.process e s in
      let t' = settle_event e o t in
      let here : e.ledger ≤ t'.processed_up_to_ledger =
        settle_event-covers e o t (omega (arith, fine, process_events-errors es t' s')) in
      (
        omega (arith, process_events-up processor es t' s'),
        process_events-covers es t' s' (omega (arith, fine, settle_event-errors e o t)),
      )

  after_batch-goes_on :
      (env : BackfillSetting) (end : ℕ) (p q : Progress processor)
      → p.next_cursor ≡ none
      → after_batch processor env end p ≡ goes_on q
      → (q.next_cursor ≡ none)
        × (q.current_start_ledger ≡ p.tally.processed_up_to_ledger + 1)
        × (q.tally ≡ p.tally)
  unfolding after_batch
  after_batch-goes_on env end p q ended h =
      elim (Bool-cases (ltb 0 end && leb end p.tally.processed_up_to_ledger)) [
        | inl reached ↦ absurd (cc (rw reached at h))
        | inr more ↦
            let on = ap (λ r. of_round processor r) (rw (more, ended) at h) in
            (
              sym (ap (λ x. x.next_cursor) on),
              sym (ap (λ x. x.current_start_ledger) on),
              sym (ap (λ x. x.tally) on),
            )
      ]

  request-from :
      (q : Progress processor) (n : ℕ)
      → q.next_cursor ≡ none
      → q.current_start_ledger ≡ n + 1
      → request_of processor q ≡ from_ledger (n + 1)
  unfolding request_of
  request-from q n ended start = rw (ended, start) (ap (λ k. from_ledger k) (omega arith))

-- Where the node reports its latest ledger with a page, and the round adds no error, the next
-- request does not go on from the page's cursor: it starts at the ledger after the last one
-- processed, and no event of the page is later than that one. What the page left out of its last
-- ledger is not asked for.
pub next_page_skips :
    (processor : EventProcessor) (env : BackfillSetting) (end : ℕ) (p q : Progress processor)
    (events : List RawEvent) (latest : ℕ) (cursor : Option String)
    → env.get_events (p.iteration_count + 1) (request_of processor p)
      ≡ answered events (some (suc latest)) cursor
    → round processor env end p ≡ goes_on q
    → q.tally.errors ≡ p.tally.errors
    → (request_of processor q ≡ from_ledger (q.tally.processed_up_to_ledger + 1))
      × All (λ r. r.ledger ≤ q.tally.processed_up_to_ledger) events
unfolding round on_page
next_page_skips processor env end p q [] latest cursor answer went fine =
    absurd (cc (rw (answer, round) at went))
next_page_skips processor env end p q (r ∷ rs) latest cursor answer went fine =
    elim (Option-cases (parse_all env.decoder (r ∷ rs))) [
      | inl bad ↦ absurd (cc (rw (bad, on_page) at (rw (answer, round) at went)))
      | inr (es, parsed) ↦
          let (t, s) = process_events processor (ordered_events es) p.tally p.tables in
          let p' : Progress processor = record p {
            iteration_count = p.iteration_count + 1;
            next_cursor = if number_or (some (suc latest)) 0 == 0 then cursor else none;
            tally = t;
            tables = s;
          } in
          let batch : after_batch processor env end p' ≡ goes_on q =
            rw (parsed, on_page) at (rw (answer, round) at went) in
          let (ended, start, tally) =
            after_batch-goes_on processor env end p' q (reported latest cursor) batch in
          let upto : t.processed_up_to_ledger ≡ q.tally.processed_up_to_ledger =
            ap (λ u. u.processed_up_to_ledger) (sym tally) in
          (
            request-from processor q t.processed_up_to_ledger ended start
                ∙ ap (λ n. from_ledger (n + 1)) upto,
            parse_all-ledgers q.tally.processed_up_to_ledger env.decoder (r ∷ rs) parsed (
                rw (← upto) (
                  All-ordered_events (λ e. e.ledger ≤ t.processed_up_to_ledger) es
                    (process_events-covers processor (ordered_events es) p.tally p.tables (
                      omega (arith, ap (λ u. length u.errors) tally, ap (λ es. length es) fine))))),
          )
    ]
