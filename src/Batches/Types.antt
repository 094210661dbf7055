-- ===== src/Batches/Types.antt =====
-- apps/horizon/src/repository/events.repository.ts: the items that `storeEventsAndTransactionsInDB` is
-- given, and the rows that it writes. Times are numbers, in milliseconds. Of an XDR field, none stands
-- for the empty object that the source writes where there is no text.
use Prim.Native.String.{String}
use attest_so.Prelude.{ℕ, Bool, Option}
use attest_so.Projection.Values.{Native}

-- A ledger as JSON has it.
pub data LedgerValue : Type 0 where
  no_ledger : LedgerValue
  ledger_number : ℕ → LedgerValue
  ledger_text : String → LedgerValue

pub record ItemEvent : Type 0 where
  pub id : String
  pub ledger : LedgerValue
  pub timestamp : Option String
  pub ledger_closed_at : Option String
  pub tx_hash : Option String
  pub contract_id : Option String
  pub type : Option String
  pub event_type : Option String
  pub data_value : Native
  pub topic : Native
  pub value : Native
  pub paging_token : Native
  pub in_successful_contract_call : Native

-- The details of a transaction; numbers that are stored as texts are given as texts.
pub record TxInfo : Type 0 where
  pub hash : Option String
  pub tx_hash : Option String
  pub source_account : Option String
  pub fee : Option String
  pub operation_count : Option ℕ
  pub envelope_xdr : Option String
  pub envelope : Option String
  pub result_xdr : Option String
  pub result : Option String
  pub result_meta_xdr : Option String
  pub meta : Option String
  pub fee_bump : Bool
  pub successful : Option Bool
  pub memo : Option String
  pub memo_type : Option String
  pub inclusion_fee : Option String
  pub resource_fee : Option String
  pub soroban_resource_usage : Option String
  pub status : Option String

-- An item; the details stand under one of two names.
pub record EventItem : Type 0 where
  pub event : ItemEvent
  pub transaction_details : Option TxInfo
  pub transaction : Option TxInfo

pub record StoredTransaction : Type 0 where
  pub hash : String
  pub ledger : Option ℕ
  pub timestamp : ℕ
  pub source_account : String
  pub fee : String
  pub operation_count : ℕ
  pub envelope : Option String
  pub result : Option String
  pub meta : Option String
  pub fee_bump : Bool
  pub successful : Bool
  pub memo : Option String
  pub memo_type : Option String
  pub inclusion_fee : Option String
  pub resource_fee : Option String
  pub soroban_resource_usage : Option String

pub record StoredEvent : Type 0 where
  pub event_id : String
  pub ledger : ℕ
  pub timestamp : ℕ
  pub contract_id : String
  pub event_type : String
  pub event_data : Native
  pub tx_hash : Option String
  pub tx_envelope : String
  pub tx_result : String
  pub tx_meta : String
  pub tx_fee_bump : Bool
  pub tx_status : String
  pub tx_created_at : ℕ
