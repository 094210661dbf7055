-- ===== src/Ingest/Types.antt =====
-- apps/horizon/src/repository/events.repository.ts and ingest.repository.ts: results, and what the
-- RPC node answers. Ledger numbers are natural numbers.
use Prim.Native.String.{String}
use attest_so.Prelude.{ℕ, Bool, List}

pub record FetchEventsResult : Type 0 where
  pub message : String
  pub events_fetched : ℕ
  pub processed_up_to_ledger : ℕ
  pub last_rpc_ledger : ℕ

pub record RecurringIngestResult : Type 0 where
  pub success : Bool
  pub message : String
  pub events_processed : ℕ
  pub transactions_processed : ℕ
  pub operations_processed : ℕ
  pub processed_up_to_ledger : ℕ
  pub errors : List String
