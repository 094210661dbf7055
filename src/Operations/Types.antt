-- ===== src/Operations/Types.antt =====
-- apps/horizon/src/repository/backfill.repository.ts: an operation as Horizon returns it, and its row.
-- A field that is absent is `none`; parameters, details and the whole operation are JSON texts.
use Prim.Native.String.{String}
use attest_so.Prelude.{ℕ, Bool, List, Option}

pub record HostFunction : Type 0 where
  pub type : String
  pub contract_address : Option String

pub record Effect : Type 0 where
  pub type : String
  pub contract : Option String

-- `details_function` and `details_parameters` are the fields of `details`.
pub record Operation : Type 0 where
  pub id : String
  pub transaction_hash : Option String
  pub type_i : Option ℕ
  pub type : Option String
  pub successful : Option Bool
  pub transaction_successful : Option Bool
  pub source_account : Option String
  pub index : Option ℕ
  pub operation_index : Option ℕ
  pub to : Option String
  pub from : Option String
  pub account : Option String
  pub contract_id : Option String
  pub contract_address : Option String
  pub function : Option String
  pub parameters : Option String
  pub details_function : Option String
  pub details_parameters : Option String
  pub host_function : Option HostFunction
  pub effects : List Effect
  pub amount : Option String
  pub asset : Option String
  pub trustor : Option String
  pub trustee : Option String
  pub json : String

-- What is kept of the parameters: their JSON text, or the fields that are present.
pub data Parameters : Type 0 where
  whole : String → Parameters
  fields : List (String × String) → Parameters

-- The details of a row: the JSON text of the operation, and the field `_contractId` that
-- `fetchContractOperations` adds to it.
pub record OperationDetails : Type 0 where
  pub operation : String
  pub contract_id : Option String

-- A row of `horizonOperation`.
pub record OperationRow : Type 0 where
  pub operation_id : String
  pub transaction_hash : Option String
  pub contract_id : String
  pub operation_type : String
  pub successful : Bool
  pub source_account : String
  pub operation_index : ℕ
  pub function : Option String
  pub parameters : Option Parameters
  pub details : OperationDetails
