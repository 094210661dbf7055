-- ===== src/Ingest/Restart.antt =====
-- A call of `fetchAndStoreEvents` that is asked for a ledger ahead of the checkpoint, and finds
-- nothing.
use attest_so.Prelude.{
  ℕ, ◌+◌, ◌≤◌, ◌<◌, ◌≡◌, ◌≢◌, refl, max, true, false, ◌&&◌, [], Option, none, some, length, arith,
  ltb, ◌==◌,
}
use attest_so.Ingest.Cycle.{Rpc, Cycle, from_ledger, page, finished, turn, ends, run_cycle}
use attest_so.Ingest.Call.{
  Setting, get_last_processed, first_ledger, new_cycle, checkpoint, Fetched, returned, threw_error,
  run_call, fetch_and_store_events, finish,
}

-- The ledger that the next run of the job starts from, as the queue computes it.
abbrev pub next_start : Fetched → Option ℕ
next_start (returned r) = some (r.processed_up_to_ledger + 1)
next_start (threw_error m) = none

-- The loop over one empty page with no cursor.
abbrev empty_cycle : ℕ → Cycle
empty_cycle last_db = record {
  current_ledger_to_query = last_db + 1;
  next_cursor = none;
  last_ledger_processed = last_db;
  total_events_fetched = 0;
  iteration = 1;
  prev_cursor = none;
  stale_cursor_count = 0;
  flushed = [];
}

empty_turn :
    (rpc : Rpc) (latest s last_db : ℕ)
    → rpc.get_events 1 (from_ledger (max 1 s)) ≡ page [] none
    → last_db + 1 ≤ latest
    → turn rpc latest (new_cycle s last_db) ≡ ends (empty_cycle last_db)
unfolding turn
empty_turn rpc latest s last_db answer low = rw (answer, turn) (ground arith)

empty_call :
    (env : Setting) (latest s stored : ℕ)
    → env.connected ≡ true
    → env.readable ≡ true
    → env.rpc.get_events 1 (from_ledger (max 1 s)) ≡ page [] none
    → stored + 1 < s
    → s ≤ latest
    → run_call env latest (some s) stored
      ≡ finish env latest stored stored (finished (empty_cycle stored))
unfolding run_call run_cycle
empty_call env latest s stored up readable answer ahead within =
    let read : get_last_processed env stored ≡ stored = ground arith in
    let first : first_ledger (some s) stored latest ≡ s = ground arith in
    let inside : (ltb latest s && ltb 0 latest) ≡ false = ground arith in
    rw (read, first, inside, empty_turn env.rpc latest s stored answer (omega arith), run_cycle)
      refl

empty-checkpoint :
    (env : Setting) (latest stored : ℕ)
    → checkpoint env latest stored (empty_cycle stored) stored ≡ stored
unfolding checkpoint
empty-checkpoint env latest stored = ground arith

-- A call is asked to start at a ledger ahead of the one after the checkpoint, and the node answers the
-- first request with no events and no cursor. Then the call leaves the checkpoint where it was and
-- reports it as the ledger processed, so that the next run starts again right behind the checkpoint,
-- before the ledger that was requested.
pub empty_range_goes_back :
    (env : Setting) (latest s stored : ℕ)
    → env.connected ≡ true
    → env.readable ≡ true
    → length env.contract_ids ≢ 0
    → env.latest_ledger ≡ some latest
    → env.rpc.get_events 1 (from_ledger (max 1 s)) ≡ page [] none
    → stored + 1 < s
    → s ≤ latest
    → ((fetch_and_store_events env (some s) stored).checkpoint ≡ stored)
      × (next_start (fetch_and_store_events env (some s) stored).fetched ≡ some (stored + 1))
unfolding fetch_and_store_events
empty_range_goes_back env latest s stored up readable given known answer ahead within =
    let some_given : (length env.contract_ids == 0) ≡ false = ground arith in
    rw
      (
        up,
        some_given,
        known,
        fetch_and_store_events,
        empty_call env latest s stored up readable answer ahead within,
      )
      (empty-checkpoint env latest stored, refl)
