-- ===== src/Indexer/Restart.antt =====
-- apps/horizon/src/common/queue.ts and src/repository/ingest.repository.ts: what the queue makes of an
-- ingestion that failed.
use Prim.Native.String.{String}
use attest_so.Prelude.{
  ℕ, ◌+◌, ◌≡◌, ◌≢◌, refl, ap, sym, subst, ◌++◌, true, false, List, [], ◌∷◌, Option, none, some,
  length, arith, ◌==◌, ◌or_else◌,
}
use attest_so.Ingest.Types.{RecurringIngestResult}
use attest_so.Ingest.Recurring.{
  RecurringSetting, get_latest, unreachable, start_of, caught, perform_recurring_ingestion,
}
use attest_so.Queue.Types.{IngestJob, IngestQueue, finite, fetch_recurring, recurring_result}
use attest_so.Queue.Tick.{
  should_continue, recurring_delay, next_iteration, on_result, tick_end, continue_from,
}

-- The three attempts to reach the node failed.
abbrev pub IsDown : RecurringSetting → Type 0
IsDown env = (m : String) × (get_latest env.latest 3 1 ≡ unreachable m)

down_result :
    (env : RecurringSetting) (start : Option ℕ) (ids : Option (List String)) (stored : ℕ)
    (m : String)
    → env.connected ≡ true
    → length (ids or_else env.configured_contracts) ≢ 0
    → get_latest env.latest 3 1 ≡ unreachable m
    → perform_recurring_ingestion env start ids stored ≡ (caught 0 m, stored)
unfolding perform_recurring_ingestion
down_result env start ids stored m up given down =
    let some_given : (length (ids or_else env.configured_contracts) == 0) ≡ false = ground arith in
    rw (up, some_given, down, perform_recurring_ingestion) refl

continues_from_zero : (e : Option ℕ) (n : ℕ) → n ≡ 0 → should_continue e n ≡ true
unfolding should_continue
continues_from_zero none n z = refl
continues_from_zero (some e) n z = ground arith

-- The next run that the queue makes of a result that processed nothing.
abbrev next_run : ℕ → ℕ → IngestJob → RecurringIngestResult → IngestJob
next_run now poll job res = record job {
  payload = continue_from 0 job.payload;
  attempts = 0;
  next_run_at = finite (now + recurring_delay poll res);
}

zero_iteration :
    (now poll : ℕ) (job : IngestJob) (res : RecurringIngestResult)
    → res.processed_up_to_ledger ≡ 0
    → next_iteration now poll job fetch_recurring (recurring_result res)
      ≡ some (next_run now poll job res, recurring_delay poll res)
unfolding next_iteration
zero_iteration now poll job res z =
    rw (continues_from_zero job.payload.end_ledger res.processed_up_to_ledger z) (
      ap
        (λ (n : ℕ). some (
          record job {
            payload = continue_from n job.payload;
            attempts = 0;
            next_run_at = finite (now + recurring_delay poll res);
          },
          recurring_delay poll res,
        ))
        z)

zero_result :
    (now r : ℕ) (job : IngestJob) (res : RecurringIngestResult) (q : IngestQueue)
    → job.type ≡ fetch_recurring
    → res.processed_up_to_ledger ≡ 0
    → (tick_end now r job (recurring_result res) q).0.pending_jobs
      ≡ q.pending_jobs ++ next_run now q.poll_interval_ms job res ∷ []
unfolding tick_end on_result
zero_result now r job res q t z =
    let n : next_iteration now q.poll_interval_ms job job.type (recurring_result res)
        ≡ some (next_run now q.poll_interval_ms job res, recurring_delay q.poll_interval_ms res) =
      subst
        (λ ty.
          next_iteration now q.poll_interval_ms job ty (recurring_result res)
          ≡ some (next_run now q.poll_interval_ms job res, recurring_delay q.poll_interval_ms res))
        (sym t) (zero_iteration now q.poll_interval_ms job res z) in
    rw (n, on_result) refl

-- While the node cannot be reached, an ingestion leaves the checkpoint alone and returns a result
-- that says that it failed and processed up to ledger 0. The queue takes it for a success: it counts
-- no failure and keeps no backoff, and the next run starts at ledger 1, whatever the checkpoint is.
pub failed_ingestion_restarts_at_one :
    (env : RecurringSetting) (start : Option ℕ) (ids : Option (List String)) (stored : ℕ)
    (now r : ℕ) (job : IngestJob) (q : IngestQueue)
    → env.connected ≡ true
    → length (ids or_else env.configured_contracts) ≢ 0
    → IsDown env
    → job.type ≡ fetch_recurring
    → let res = (perform_recurring_ingestion env start ids stored).0 in
      (j : IngestJob) × (res.success ≡ false)
      × ((perform_recurring_ingestion env start ids stored).1 ≡ stored)
      × ((tick_end now r job (recurring_result res) q).0.pending_jobs ≡ q.pending_jobs ++ j ∷ [])
      × (j.attempts ≡ 0)
      × (start_of env j.payload.start_ledger stored ≡ 1)
unfolding start_of
failed_ingestion_restarts_at_one env start ids stored now r job q up given (m, down) t = (
  next_run now q.poll_interval_ms job (caught 0 m),
  rw (down_result env start ids stored m up given down) refl,
  rw (down_result env start ids stored m up given down) refl,
  rw (down_result env start ids stored m up given down)
      (zero_result now r job (caught 0 m) q t refl),
  refl,
  refl,
)
