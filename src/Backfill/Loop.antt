-- ===== src/Backfill/Loop.antt =====
-- apps/horizon/src/repository/backfill.repository.ts: the loop of `performBackfill`. It reads events,
-- puts them in order and processes them as the recurring ingestion does, whose definitions it uses;
-- what the processing of an event does to the database is given by a processor.
use Prim.Native.String.{String}
use attest_so.Prelude.{
  ℕ, zero, suc, ◌+◌, max, Bool, true, false, ◌&&◌, List, [], ◌∷◌, ◌++◌, Option, none, some, ltb,
  leb, ◌==◌, truthy, if◌then◌else◌, ◌&◌,
}
use attest_so.Ingest.Cycle.{EventsRequest, from_cursor, from_ledger, has_text}
use attest_so.Ingest.Events.{RawEvent, EventData, Decoder, parse_all, ordered_events}
use attest_so.Ingest.Recurring.{LatestReply, EventOutcome, Tally, count_if}

-- The tables, and the processing of one event: `processOperationsForEvent`,
-- `processTransactionForEvent` and `upsertEventIndividually`.
pub record EventProcessor : Type 1 where
  pub Tables : Type 0
  pub process : EventData → Tables → Tables × EventOutcome

-- The answer to `getEvents`: its events, its latest ledger and its cursor.
pub data BackfillAnswer : Type 0 where
  fetch_threw rpc_error : String → BackfillAnswer
  answered : List RawEvent → Option ℕ → Option String → BackfillAnswer

pub record BackfillSetting : Type 0 where
  pub connected : Bool
  pub contract_ids : List String
  pub latest : ℕ → LatestReply
  pub get_events : ℕ → EventsRequest → BackfillAnswer
  pub decoder : Decoder
  pub writable : Bool

-- `startLedger || d` and `endLedger` in a test: 0 counts as not given.
abbrev pub number_or : Option ℕ → ℕ → ℕ
number_or none d = d
number_or (some n) d = if n == 0 then d else n

unfoldable pub settle_event : EventData → EventOutcome → Tally → Tally
settle_event e o t =
    let stored = record t {
      operations_processed = t.operations_processed + o.operations;
      transactions_processed = count_if o.transaction_stored t.transactions_processed;
    } in
    elim o.error [
      | some m ↦ record stored {
        errors = t.errors ++ ("Error processing event " & e.event_id & ": " & m) ∷ [];
      }
      | none ↦ record stored {
        events_processed = t.events_processed + 1;
        processed_up_to_ledger =
            if ltb t.processed_up_to_ledger e.ledger then e.ledger else t.processed_up_to_ledger;
      }
    ]

module _ (processor : EventProcessor) where
  -- The variables of the loop, the checkpoint that the database holds, and the tables.
  pub record Progress : Type 0 where
    pub tally : Tally
    pub current_start_ledger : ℕ
    pub next_cursor : Option String
    pub iteration_count : ℕ
    pub checkpoint : ℕ
    pub tables : processor.Tables

  pub data Round : Type 0 where
    breaks goes_on : Progress → Round
    throws : String → Progress → Round

  unfoldable pub request_of : Progress → EventsRequest
  request_of p = elim p.next_cursor [
    | none ↦ from_ledger (max 1 p.current_start_ledger)
    | some cursor ↦
        if truthy cursor then from_cursor cursor else from_ledger (max 1 p.current_start_ledger)
  ]

  unfoldable pub process_events :
      List EventData → Tally → processor.Tables → Tally × processor.Tables
  process_events [] t s = (t, s)
  process_events (e ∷ es) t s =
      let (s', o) = processor.process e s in process_events es (settle_event e o t) s'

  -- After the events of a page: the checkpoint, the test of the end, and the next start.
  unfoldable pub after_batch : BackfillSetting → ℕ → Progress → Round
  after_batch env end p =
      let processed = p.tally.processed_up_to_ledger in
      let q = record p {
        checkpoint = if ltb 0 processed && env.writable then processed else p.checkpoint;
      } in
      if ltb 0 end && leb end processed
      then breaks q
      else if has_text q.next_cursor
      then goes_on q
      else goes_on (record q { current_start_ledger = processed + 1 })

  unfoldable pub on_page :
      BackfillSetting → ℕ → List RawEvent → Option ℕ → Option String → Progress → Round
  on_page env end events latest cursor p =
      let q = record p { next_cursor = if number_or latest 0 == 0 then cursor else none } in
      elim events [
        | [] ↦ breaks q
        | r ∷ rs ↦ elim (parse_all env.decoder (r ∷ rs)) [
          | none ↦ throws env.decoder.error_message q
          | some es ↦
              let (t, s) = process_events (ordered_events es) q.tally q.tables in
              after_batch env end (record q { tally = t; tables = s })
        ]
      ]

  -- One round. `end` is `endLedger`, 0 where it is not given.
  unfoldable pub round : BackfillSetting → ℕ → Progress → Round
  unfolding request_of on_page
  round env end p₀ =
      let p = record p₀ { iteration_count = p₀.iteration_count + 1 } in
      elim (env.get_events p.iteration_count (request_of p)) [
        | fetch_threw m ↦ throws m p
        | rpc_error m ↦ breaks (record p {
          tally = record p.tally { errors = p.tally.errors ++ ("RPC error: " & m) ∷ [] };
        })
        | answered events latest cursor ↦ on_page env end events latest cursor p
      ]

  -- How the loop ends.
  pub data LoopEnd : Type 0 where
    finished : Progress → LoopEnd
    threw : String → Progress → LoopEnd

  -- The `while` loop; `left` is what the limit of 50 rounds leaves.
  unfoldable pub backfill_loop : BackfillSetting → ℕ → ℕ → ℕ → Progress → LoopEnd
  backfill_loop env end target zero p = finished p
  backfill_loop env end target (suc left) p = elim (leb p.current_start_ledger target) [
    | false ↦ finished p
    | true ↦ elim (round env end p) [
      | breaks q ↦ finished q
      | throws m q ↦ threw m q
      | goes_on q ↦ backfill_loop env end target left q
    ]
  ]
