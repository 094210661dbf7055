-- ===== src/Registry/Transactions.antt =====
-- apps/horizon/src/repository/contract-transactions.repository.ts: the rollup table of registry actions,
-- one row for an event. Of the metadata the model has the texts of its elements, where it is an array.
use Prim.Native.String.{String}
use attest_so.Prelude.{ℕ, Bool, ◌&&◌, List, Option, none, if◌then◌else◌}
use attest_so.Storage.{Table}

pub record ContractTransaction : Type 0 where
  pub event_id : String
  pub action : String
  pub transaction_hash : String
  pub timestamp : ℕ
  pub source_account : String
  pub contract_id : String
  pub operation_id : Option String
  pub ledger : Option ℕ
  pub metadata : Option (List String)

module _ (table : Table ContractTransaction) where
  -- The update writes every field anew, and the key is the event's id.
  unfoldable pub upsert_contract_transaction :
      Bool → Bool → ContractTransaction → table.State → table.State × Option ContractTransaction
  upsert_contract_transaction connected accepted t s =
      let after = table.upsert t.event_id (λ r. record t { event_id = r.event_id }) t s in
      if connected && accepted then (after, table.find t.event_id after) else (s, none)
