-- ===== src/Ingest/Checkpoint.antt =====
-- What a call of `fetchAndStoreEvents` does to the checkpoint, and to the database.
use attest_so.Prelude.{
  ℕ, ◌≤◌, ◌≡◌, ◌≢◌, refl, subst, true, ◌&&◌, List, Option, length, arith, Bool-cases, Option-cases,
  inl, inr, ltb, ◌==◌,
}
use attest_so.Ingest.Cycle.{
  BatchItem, Rpc, Cycle, CycleEnd, finished, threw, out_of_fuel, run_cycle,
}
use attest_so.Ingest.Rounds.{EndIs, run_cycle-EndIs, flushed_events}
use attest_so.Ingest.Call.{
  Setting, get_last_processed, first_ledger, new_cycle, checkpoint, Fetched, returned, threw_error,
  CallEnd, finish, max_rounds, run_call, fetch_and_store_events,
}

-- The loop always ends: by its own limit of rounds, the fuel of the model is never used up.
pub cycle_ends :
    (rpc : Rpc) (latest current last_db : ℕ) (c : Cycle)
    → run_cycle rpc latest max_rounds (new_cycle current last_db) ≢ out_of_fuel c
cycle_ends rpc latest current last_db c e =
    subst (EndIs (new_cycle current last_db)) e (
      run_cycle-EndIs rpc latest max_rounds (new_cycle current last_db) (omega arith) (omega arith))

checkpoint-le :
    (env : Setting) (latest last_db stored : ℕ) (c : Cycle)
    → last_db ≡ stored
    → stored ≤ checkpoint env latest last_db c stored
unfolding checkpoint
checkpoint-le env latest last_db stored c e = ground arith

-- The count of events that a call returns is the number of those handed to the database.
abbrev Reports : List (List BatchItem) → Fetched → Type 0
Reports flushed (returned r) = r.events_fetched ≡ flushed_events flushed
Reports flushed (threw_error m) = Unit

-- A call that began with the checkpoint `stored` has not lowered it, and reports what it stored.
abbrev pub AccountsFor : ℕ → CallEnd → Type 0
AccountsFor stored e = (stored ≤ e.checkpoint) × Reports e.flushed e.fetched

finish_lem :
    (env : Setting) (latest last_db stored current : ℕ) (e : CycleEnd)
    → last_db ≡ stored
    → EndIs (new_cycle current last_db) e
    → AccountsFor stored (finish env latest last_db stored e)
finish_lem env latest last_db stored current (finished c) same a =
    (checkpoint-le env latest last_db stored c same, omega (arith, a.accounted))
finish_lem env latest last_db stored current (threw m c) same a = (omega arith, tt)
finish_lem env latest last_db stored current (out_of_fuel c) same a = elim a [ ]

run_call_lem :
    (env : Setting) (latest : ℕ) (start : Option ℕ) (stored : ℕ)
    → env.connected ≡ true
    → env.readable ≡ true
    → AccountsFor stored (run_call env latest start stored)
unfolding run_call
run_call_lem env latest start stored up readable =
    let last_db = get_last_processed env stored in
    let current = first_ledger start last_db latest in
    elim (Bool-cases (ltb latest current && ltb 0 latest)) [
      | inl ahead ↦ rw ahead (omega arith, refl)
      | inr behind ↦ rw behind (
          finish_lem env latest last_db stored current _ (ground arith) (
            run_cycle-EndIs env.rpc latest max_rounds (new_cycle current last_db) (omega arith)
              (omega arith)))
    ]

-- If the indexer's state can be read, a call never lowers the last processed ledger, whatever the
-- node answers and however the call ends; and where it returns, the count that it reports is the
-- number of events that it handed to the database, batch by batch.
pub fetch_and_store_events_accounts :
    (env : Setting) (start : Option ℕ) (stored : ℕ)
    → env.readable ≡ true
    → AccountsFor stored (fetch_and_store_events env start stored)
unfolding fetch_and_store_events
fetch_and_store_events_accounts env start stored readable = elim (Bool-cases env.connected) [
  | inr down ↦ rw down (omega arith, tt)
  | inl up ↦ elim (Bool-cases (length env.contract_ids == 0)) [
    | inl none_given ↦ rw (up, none_given) (omega arith, tt)
    | inr given ↦ elim (Option-cases env.latest_ledger) [
      | inl unknown ↦ rw (up, given, unknown, fetch_and_store_events) (omega arith, tt)
      | inr (latest, known) ↦
          rw (up, given, known, fetch_and_store_events)
            (run_call_lem env latest start stored up readable)
    ]
  ]
]
