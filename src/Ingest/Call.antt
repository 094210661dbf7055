-- ===== src/Ingest/Call.antt =====
-- apps/horizon/src/repository/events.repository.ts: `fetchAndStoreEvents` around its loop, with the
-- checkpoint functions of apps/horizon/src/common/db.ts that it calls.
use Prim.Native.String.{String}
use attest_so.Prelude.{
  ℕ, ◌+◌, ◌-◌, ◌*◌, max, min, Bool, not, ◌&&◌, List, [], Option, none, some, length, ltb, leb, ◌==◌,
  if◌then◌else◌, decimal, ◌&◌,
}
use attest_so.Ingest.Types.{FetchEventsResult}
use attest_so.Ingest.Cycle.{
  Rpc, BatchItem, Cycle, CycleEnd, finished, threw, out_of_fuel, run_cycle,
}

-- What one call of `fetchAndStoreEvents` meets: whether there is a database, the contracts to index,
-- what `getLatestLedger` answers, and whether the indexer's state can be read and written.
pub record Setting : Type 0 where
  pub connected : Bool
  pub contract_ids : List String
  pub latest_ledger : Option ℕ
  pub rpc_error_message : String
  pub readable : Bool
  pub writable : Bool
  pub rpc : Rpc

-- `getLastProcessedLedgerFromDB`, and `updateLastProcessedLedgerInDB`; both swallow their errors.
abbrev pub get_last_processed : Setting → ℕ → ℕ
get_last_processed env stored = if env.connected && env.readable then stored else 0

abbrev update_last_processed : Setting → ℕ → ℕ → ℕ
update_last_processed env ledger stored = if env.connected && env.writable then ledger else stored

-- Seven days of ledgers, at ten a minute.
abbrev max_look_back : ℕ
max_look_back = 7 * 24 * 60 * 10

abbrev pub first_ledger : Option ℕ → ℕ → ℕ → ℕ
first_ledger (some requested) last_db latest = if requested == 0 then 1 else requested
first_ledger none last_db latest =
    if ltb 0 last_db then last_db + 1 else max 1 (latest - max_look_back)

abbrev pub new_cycle : ℕ → ℕ → Cycle
new_cycle current last_db = record {
  current_ledger_to_query = current;
  next_cursor = none;
  last_ledger_processed = last_db;
  total_events_fetched = 0;
  iteration = 0;
  prev_cursor = none;
  stale_cursor_count = 0;
  flushed = [];
}

-- The checkpoint after the loop.
unfoldable pub checkpoint : Setting → ℕ → ℕ → Cycle → ℕ → ℕ
checkpoint env latest last_db c stored =
    let to = min (c.current_ledger_to_query - 1) latest in
    if ltb last_db c.last_ledger_processed
    then update_last_processed env c.last_ledger_processed stored
    else if c.total_events_fetched == 0
        && ltb last_db c.current_ledger_to_query
        && leb c.current_ledger_to_query (latest + 1)
    then (if ltb last_db to then update_last_processed env to stored else stored)
    else stored

-- What a call leaves: the checkpoint, the batches handed to the database, and its result or the
-- message of what it throws.
pub data Fetched : Type 0 where
  returned : FetchEventsResult → Fetched
  threw_error : String → Fetched

pub record CallEnd : Type 0 where
  pub checkpoint : ℕ
  pub flushed : List (List BatchItem)
  pub fetched : Fetched

abbrev failed_call : ℕ → List (List BatchItem) → String → CallEnd
failed_call stored flushed message = record {
  checkpoint = stored;
  flushed = flushed;
  fetched = threw_error ("Error in fetchAndStoreEvents (events.repository.ts): " & message);
}

abbrev pub finish : Setting → ℕ → ℕ → ℕ → CycleEnd → CallEnd
finish env latest last_db stored (finished c) = record {
  checkpoint = checkpoint env latest last_db c stored;
  flushed = c.flushed;
  fetched = returned (record {
    message =
        "Event ingestion cycle finished. Fetched "
        & decimal c.total_events_fetched
        & " events. Processed up to ledger "
        & decimal c.last_ledger_processed
        & ".";
    events_fetched = c.total_events_fetched;
    processed_up_to_ledger = c.last_ledger_processed;
    last_rpc_ledger = latest;
  });
}
finish env latest last_db stored (threw m c) = failed_call stored c.flushed m
finish env latest last_db stored (out_of_fuel c) = failed_call stored c.flushed "out of fuel"

-- The rounds that the loop can take: the round after the thousandth throws.
abbrev pub max_rounds : ℕ
max_rounds = 1001

unfoldable pub run_call : Setting → ℕ → Option ℕ → ℕ → CallEnd
run_call env latest start stored =
    let last_db = get_last_processed env stored in
    let current = first_ledger start last_db latest in
    if ltb latest current && ltb 0 latest
    then record {
      checkpoint = stored;
      flushed = [];
      fetched = returned (record {
        message = "Start ledger is ahead of the latest RPC ledger. No new events to process.";
        events_fetched = 0;
        processed_up_to_ledger = current - 1;
        last_rpc_ledger = latest;
      });
    }
    else finish env latest last_db stored
        (run_cycle env.rpc latest max_rounds (new_cycle current last_db))

-- `stored` is the last processed ledger that the database holds.
unfoldable pub fetch_and_store_events : Setting → Option ℕ → ℕ → CallEnd
fetch_and_store_events env start stored =
    if not env.connected
    then record {
      checkpoint = stored;
      flushed = [];
      fetched =
          threw_error
            "Database not connected (checked in fetchAndStoreEvents). Aborting event fetch.";
    }
    else if length env.contract_ids == 0
    then record {
      checkpoint = stored;
      flushed = [];
      fetched = threw_error "CONTRACT_IDS_TO_INDEX is empty or not defined. Aborting event fetch.";
    }
    else elim env.latest_ledger [
      | none ↦
          failed_call stored []
            ("Failed to fetch latest ledger from RPC (SDK): " & env.rpc_error_message)
      | some latest ↦ run_call env latest start stored
    ]
