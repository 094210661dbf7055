-- ===== src/Backfill/Call.antt =====
-- apps/horizon/src/repository/backfill.repository.ts: `performBackfill` around its loop.
use Prim.Native.String.{String}
use attest_so.Prelude.{
  ℕ, Bool, true, false, not, List, [], ◌∷◌, ◌++◌, Option, none, length, ◌==◌, if◌then◌else◌,
  decimal, ◌&◌,
}
use attest_so.Ingest.Recurring.{Tally, sequence, without_sequence, unreachable, get_latest}
use attest_so.Backfill.Loop.{
  EventProcessor, BackfillSetting, number_or, Progress, LoopEnd, finished, threw, backfill_loop,
}

pub record BackfillResult : Type 0 where
  pub success : Bool
  pub message : String
  pub events_processed : ℕ
  pub transactions_processed : ℕ
  pub operations_processed : ℕ
  pub processed_up_to_ledger : ℕ
  pub errors : List String

abbrev result_of : Bool → String → List String → Tally → BackfillResult
result_of success message errors t = record {
  success = success;
  message = message;
  events_processed = t.events_processed;
  transactions_processed = t.transactions_processed;
  operations_processed = t.operations_processed;
  processed_up_to_ledger = t.processed_up_to_ledger;
  errors = errors;
}

abbrev first_tally : ℕ → Tally
first_tally processed = record {
  events_processed = 0;
  transactions_processed = 0;
  operations_processed = 0;
  processed_up_to_ledger = processed;
  errors = [];
}

abbrev completed_message : Tally → String
completed_message t =
    "Backfill completed: "
    & decimal t.events_processed
    & " events, "
    & decimal t.transactions_processed
    & " transactions, "
    & decimal t.operations_processed
    & " operations processed up to ledger "
    & decimal t.processed_up_to_ledger

-- The `catch` block.
abbrev pub caught : String → Tally → BackfillResult
caught m t =
    result_of false ("Backfill failed: " & m) (t.errors ++ ("Backfill failed: " & m) ∷ []) t

module _ (processor : EventProcessor) where
  -- What a call leaves: its result, the checkpoint of the database and the tables.
  pub record BackfillEnd : Type 0 where
    pub result : BackfillResult
    pub checkpoint : ℕ
    pub tables : processor.Tables

  abbrev pub finish : LoopEnd processor → BackfillEnd
  finish (finished p) = record {
    result = result_of true (completed_message p.tally) p.tally.errors p.tally;
    checkpoint = p.checkpoint;
    tables = p.tables;
  }
  finish (threw m p) = record {
    result = caught m p.tally;
    checkpoint = p.checkpoint;
    tables = p.tables;
  }

  abbrev pub first_progress : Option ℕ → ℕ → processor.Tables → Progress processor
  first_progress start stored s = record {
    tally = first_tally (number_or start 0);
    current_start_ledger = number_or start 1;
    next_cursor = none;
    iteration_count = 0;
    checkpoint = stored;
    tables = s;
  }

  -- The loop up to a ledger, from the start asked for.
  abbrev pub run_to : BackfillSetting → ℕ → ℕ → Progress processor → BackfillEnd
  run_to env end target p = finish (backfill_loop processor env end target 50 p)

  -- `stored` is the last processed ledger that the database holds. A comparison with the sequence
  -- number that an answer lacks fails, so that without `endLedger` there is no round.
  unfoldable pub perform_backfill :
      BackfillSetting → Option ℕ → Option ℕ → ℕ → processor.Tables → BackfillEnd
  perform_backfill env start end stored s =
      let end_ledger = number_or end 0 in
      let p = first_progress start stored s in
      if not env.connected
      then record {
        result =
            result_of false "Database connection failed" ("Failed to connect to database" ∷ [])
              (first_tally 0);
        checkpoint = stored;
        tables = s;
      }
      else if length env.contract_ids == 0
      then record {
        result =
            result_of false "No contracts configured for indexing"
              ("CONTRACT_IDS_TO_INDEX is empty" ∷ []) (first_tally 0);
        checkpoint = stored;
        tables = s;
      }
      else elim (get_latest env.latest 3 1) [
        | unreachable m ↦ finish (threw m p)
        | without_sequence ↦
            if end_ledger == 0 then finish (finished p) else run_to env end_ledger end_ledger p
        | sequence latest ↦ run_to env end_ledger (number_or end latest) p
      ]
