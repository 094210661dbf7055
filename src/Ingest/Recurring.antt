-- ===== src/Ingest/Recurring.antt =====
-- apps/horizon/src/repository/ingest.repository.ts: `performRecurringIngestion`. What the
-- node answers, the decoder of XDR values and the fate of each event in the database are given.
use Prim.Native.String.{String}
use attest_so.Prelude.{
  ℕ, zero, suc, ◌+◌, ◌-◌, max, Bool, true, false, not, ◌&&◌, List, [], ◌∷◌, ◌++◌, Option, none,
  some, length, ltb, ◌==◌, ◌or_else◌, if◌then◌else◌, decimal, ◌&◌,
}
use attest_so.Ingest.Types.{RecurringIngestResult}
use attest_so.Ingest.Events.{RawEvent, EventData, Decoder, parse_all, ordered_events}

-- An answer of `getLatestLedger`: a sequence number, an object without one, or none at all.
pub data LatestReply : Type 0 where
  got : ℕ → LatestReply
  malformed : LatestReply
  no_answer : String → LatestReply

pub data EventsAnswer : Type 0 where
  fetch_threw rpc_error : String → EventsAnswer
  answered : List RawEvent → Option ℕ → EventsAnswer

-- What became of one event: the operations and the transaction stored for it, and the message of
-- the error that ended its processing.
pub record EventOutcome : Type 0 where
  pub operations : ℕ
  pub transaction_stored : Bool
  pub error : Option String

pub record RecurringSetting : Type 0 where
  pub connected : Bool
  pub configured_contracts : List String
  pub latest : ℕ → LatestReply
  pub readable : Bool
  pub writable : Bool
  pub events_from : ℕ → EventsAnswer
  pub decoder : Decoder
  pub process_event : EventData → EventOutcome

pub data Latest : Type 0 where
  sequence : ℕ → Latest
  without_sequence : Latest
  unreachable : String → Latest

-- The retry loop: `left` attempts remain, and `n` is the number of the next one. An object without
-- a sequence number is kept, and ends the loop.
unfoldable pub get_latest : (ℕ → LatestReply) → ℕ → ℕ → Latest
get_latest reply zero n = unreachable ""
get_latest reply (suc left) n = elim (reply n) [
  | got s ↦ sequence s
  | malformed ↦
      if left == 0
      then unreachable
          "Failed to get latest ledger from RPC after 3 attempts: Invalid response: missing sequence number"
      else without_sequence
  | no_answer m ↦ elim left [
    | zero ↦ unreachable ("Failed to get latest ledger from RPC after 3 attempts: " & m)
    | suc more ↦ get_latest reply left (suc n)
  ]
]

-- The counters of the loop over the events.
pub record Tally : Type 0 where
  pub events_processed : ℕ
  pub transactions_processed : ℕ
  pub operations_processed : ℕ
  pub processed_up_to_ledger : ℕ
  pub errors : List String

abbrev pub count_if : Bool → ℕ → ℕ
count_if b n = if b then n + 1 else n

unfoldable pub process_one : RecurringSetting → EventData → Tally → Tally
process_one env e t =
    let o = env.process_event e in
    let stored = record t {
      operations_processed = t.operations_processed + o.operations;
      transactions_processed = count_if o.transaction_stored t.transactions_processed;
    } in
    elim o.error [
      | some m ↦ record stored {
        errors = t.errors ++ ("Error processing event " & e.event_id & ": " & m) ∷ [];
      }
      | none ↦ record stored {
        events_processed = t.events_processed + 1;
        processed_up_to_ledger = max t.processed_up_to_ledger e.ledger;
      }
    ]

unfoldable pub process_all : RecurringSetting → List EventData → Tally → Tally
process_all env [] t = t
process_all env (e ∷ es) t = process_all env es (process_one env e t)

-- The result, and the checkpoint that the database holds afterwards.
abbrev pub failure : ℕ → String → List String → RecurringIngestResult
failure processed message errors = record {
  success = false;
  message = message;
  events_processed = 0;
  transactions_processed = 0;
  operations_processed = 0;
  processed_up_to_ledger = processed;
  errors = errors;
}

abbrev pub idle : ℕ → String → RecurringIngestResult
idle processed message = record {
  success = true;
  message = message;
  events_processed = 0;
  transactions_processed = 0;
  operations_processed = 0;
  processed_up_to_ledger = processed;
  errors = [];
}

-- The `catch` block, before any event has been processed.
abbrev pub caught : ℕ → String → RecurringIngestResult
caught processed m =
    failure processed ("Recurring ingestion failed: " & m)
      (("Recurring ingestion failed: " & m) ∷ [])

abbrev pub completed : Tally → RecurringIngestResult
completed t = record {
  success = true;
  message =
      "Recurring ingestion completed: "
      & decimal t.events_processed
      & " events, "
      & decimal t.transactions_processed
      & " transactions, "
      & decimal t.operations_processed
      & " operations processed up to ledger "
      & decimal t.processed_up_to_ledger;
  events_processed = t.events_processed;
  transactions_processed = t.transactions_processed;
  operations_processed = t.operations_processed;
  processed_up_to_ledger = t.processed_up_to_ledger;
  errors = t.errors;
}

-- `startLedger`, or the ledger after the last processed one, or 1; 0 counts as not given.
unfoldable pub start_of : RecurringSetting → Option ℕ → ℕ → ℕ
start_of env start stored =
    let given = start or_else 0 in
    let last = if env.readable then stored else 0 in
    if given == 0 then (if ltb 0 last then last + 1 else 1) else given

-- `latestLedger` of the answer where it is not 0, and else the ledger asked for.
abbrev pub checked_up_to : ℕ → Option ℕ → ℕ
checked_up_to start none = start
checked_up_to start (some l) = if l == 0 then start else l

-- The events that were answered.
unfoldable pub ingest_events :
    RecurringSetting → ℕ → ℕ → List RawEvent → Option ℕ → RecurringIngestResult × ℕ
ingest_events env start stored [] latest =
    let processed = checked_up_to start latest in
    (idle processed ("No new events to process. Checked up to ledger " & decimal processed), stored)
ingest_events env start stored (r ∷ rs) latest = elim (parse_all env.decoder (r ∷ rs)) [
  | none ↦ (caught (checked_up_to start latest) env.decoder.error_message, stored)
  | some es ↦
      let t = process_all env (ordered_events es) (record {
        events_processed = 0;
        transactions_processed = 0;
        operations_processed = 0;
        processed_up_to_ledger = checked_up_to start latest;
        errors = [];
      }) in
      (
        completed t,
        if ltb 0 t.processed_up_to_ledger && env.writable then t.processed_up_to_ledger else stored,
      )
]

unfoldable ingest_from : RecurringSetting → ℕ → ℕ → RecurringIngestResult × ℕ
unfolding ingest_events
ingest_from env start stored = elim (env.events_from (max 1 start)) [
  | fetch_threw m ↦ (caught (start - 1) m, stored)
  | rpc_error m ↦ (failure (start - 1) ("RPC error: " & m) (("RPC error: " & m) ∷ []), stored)
  | answered events latest ↦ ingest_events env start stored events latest
]

abbrev waiting : ℕ → ℕ → RecurringIngestResult
waiting start latest = idle (start - 1) (
    "Waiting for blockchain to reach ledger "
    & decimal start
    & ". Current latest: "
    & decimal latest)

-- `stored` is the last processed ledger that the database holds.
unfoldable pub perform_recurring_ingestion :
    RecurringSetting → Option ℕ → Option (List String) → ℕ → RecurringIngestResult × ℕ
unfolding get_latest start_of ingest_from
perform_recurring_ingestion env start contract_ids stored =
    let from = start_of env start stored in
    if not env.connected
    then (failure 0 "Database connection failed" ("Failed to connect to database" ∷ []), stored)
    else if length (contract_ids or_else env.configured_contracts) == 0
    then (
      failure 0 "No contracts configured for indexing"
          ("No contract IDs provided or configured" ∷ []),
      stored,
    )
    else elim (get_latest env.latest 3 1) [
      | unreachable m ↦ (caught 0 m, stored)
      | without_sequence ↦ ingest_from env from stored
      | sequence latest ↦
          if ltb latest from then (waiting from latest, stored) else ingest_from env from stored
    ]
