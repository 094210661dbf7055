-- ===== src/Ingest/Tallies.antt =====
-- What the loop of `performRecurringIngestion` over its events counts.
use attest_so.Prelude.{
  ℕ, suc, ◌+◌, ◌≤◌, ◌≡◌, ap, inl, inr, List, [], ◌∷◌, Option, some, length, length-append, arith,
  Option-cases, ◌&◌,
}
use attest_so.Ingest.Events.{
  RawEvent, EventData, parse_event_data, parse_all, ordered_events, Decoder,
}
use attest_so.Ingest.Ordering.{length-of_perm, ordered_events-perm}
use attest_so.Ingest.Recurring.{
  RecurringSetting, Tally, process_one, process_all, ingest_events, checked_up_to,
}

-- How many events have been processed or have left an error.
abbrev pub accounted : Tally → ℕ
accounted t = t.events_processed + length t.errors

process_one_lem :
    (env : RecurringSetting) (e : EventData) (t : Tally)
    → (accounted (process_one env e t) ≡ accounted t + 1)
      × (t.processed_up_to_ledger ≤ (process_one env e t).processed_up_to_ledger)
unfolding process_one
process_one_lem env e t = elim (Option-cases (env.process_event e).error) [
  | inl fine ↦ rw (fine, process_one) (omega arith, omega arith)
  | inr (m, failed) ↦
      rw (failed, process_one)
        (
          omega (
            arith,
            length-append t.errors (("Error processing event " & e.event_id & ": " & m) ∷ []),
          ),
          omega arith,
        )
]

process_all_lem :
    (env : RecurringSetting) (es : List EventData) (t : Tally)
    → (accounted (process_all env es t) ≡ accounted t + length es)
      × (t.processed_up_to_ledger ≤ (process_all env es t).processed_up_to_ledger)
unfolding process_all
process_all_lem env [] t = (omega arith, omega arith)
process_all_lem env (e ∷ es) t =
    let (n, l) = process_one_lem env e t in
    let (m, k) = process_all_lem env es (process_one env e t) in (omega arith, omega arith)

pub length-parse_all :
    (d : Decoder) (rs : List RawEvent) {es : List EventData}
    → parse_all d rs ≡ some es
    → length es ≡ length rs
unfolding parse_all
length-parse_all d [] h = ground arith
length-parse_all d (r ∷ rs) {es} h = elim (Option-cases (parse_event_data d r)) [
  | inl bad ↦ absurd (ground (arith, bad))
  | inr (e, good) ↦ elim (Option-cases (parse_all d rs)) [
    | inl bad ↦ absurd (ground (arith, good, bad))
    | inr (rest, parsed) ↦
        let same : es ≡ e ∷ rest = ground (arith, good, parsed) in
        rw same (ap suc (length-parse_all d rs parsed))
  ]
]

-- Every event of an answer, once decoded, is processed or leaves one error in the result, and the
-- result's ledger is no less than the one that the answer was checked up to.
pub ingest_events_accounts :
    (env : RecurringSetting) (start stored : ℕ) (r : RawEvent) (rs : List RawEvent)
    (latest : Option ℕ) (es : List EventData)
    → parse_all env.decoder (r ∷ rs) ≡ some es
    → let res = (ingest_events env start stored (r ∷ rs) latest).0 in
      (res.events_processed + length res.errors ≡ length (r ∷ rs))
      × (checked_up_to start latest ≤ res.processed_up_to_ledger)
unfolding ingest_events
ingest_events_accounts env start stored r rs latest es parsed =
    let t₀ : Tally = record {
      events_processed = 0;
      transactions_processed = 0;
      operations_processed = 0;
      processed_up_to_ledger = checked_up_to start latest;
      errors = [];
    } in
    let (count, ledger) = process_all_lem env (ordered_events es) t₀ in
    rw (parsed, ingest_events)
      (
        omega (
          arith,
          count,
          length-of_perm (ordered_events-perm es),
          length-parse_all env.decoder (r ∷ rs) parsed,
        ),
        omega (arith, ledger),
      )
