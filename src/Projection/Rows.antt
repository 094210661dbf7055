-- ===== src/Projection/Rows.antt =====
-- apps/horizon/src/repository: the rows of events and transactions (`upsertEventIndividually` and
-- `processTransactionForEvent`). Times are numbers, in milliseconds; XDR values are texts.
use Prim.Native.String.{String}
use attest_so.Prelude.{
  ◌or_text◌, ℕ, ◌*◌, Bool, false, ◌||◌, Option, none, some, ltb, ◌or_else◌, text_or, ◌is◌,
  if◌then◌else◌,
}
use attest_so.Ingest.Events.{EventData}

-- What `fetchTransactionDetails` returns of a transaction, in the spellings that the code asks for.
pub record TxDetails : Type 0 where
  pub envelope_xdr_snake : Option String
  pub envelope_xdr : Option String
  pub envelope : Option String
  pub result_xdr_snake : Option String
  pub result_xdr : Option String
  pub result : Option String
  pub result_meta_xdr_snake : Option String
  pub result_meta_xdr : Option String
  pub meta : Option String
  pub fee_bump : Bool
  pub status : Option String
  pub created_at_snake : Option ℕ
  -- In seconds, of `createdAt || ledgerCloseTime`.
  pub created_at : Option ℕ
  pub ledger : Option ℕ
  pub source_account : Option String
  pub fee_soroban : Option String
  pub fee : Option String
  pub operation_count : Option ℕ

pub record EventRow : Type 0 where
  pub event_id : String
  pub ledger : ℕ
  pub contract_id : String
  pub event_type : String
  pub event_data : String
  pub timestamp : ℕ
  pub tx_hash : String
  pub operation_id : Option String
  pub tx_envelope : String
  pub tx_result : String
  pub tx_meta : String
  pub tx_fee_bump : Bool
  pub tx_status : String
  pub tx_created_at : ℕ

pub record TransactionRow : Type 0 where
  pub hash : String
  pub ledger : ℕ
  pub source_account : String
  pub fee : String
  pub operation_count : ℕ
  pub envelope : String
  pub result : String
  pub meta : String
  pub successful : Bool
  pub timestamp : ℕ

-- A field of the details, which may be null.
abbrev pub of_details : (TxDetails → Option String) → Option TxDetails → Option String
of_details field none = none
of_details field (some d) = field d

abbrev fee_bump_of : Option TxDetails → Bool
fee_bump_of none = false
fee_bump_of (some d) = d.fee_bump

abbrev created_at_of : Option TxDetails → Option ℕ
created_at_of none = none
created_at_of (some d) = d.created_at_snake

-- `time` is the timestamp of the event.
unfoldable pub event_row : EventData → ℕ → Option String → Option TxDetails → EventRow
event_row e time operation_id d = record {
  event_id = e.event_id;
  ledger = e.ledger;
  contract_id = e.contract_id;
  event_type = e.event_type;
  event_data = e.event_data;
  timestamp = time;
  tx_hash = e.transaction_hash;
  operation_id = operation_id;
  tx_envelope =
      text_or (of_details (λ t. t.envelope_xdr_snake or_text t.envelope_xdr or_text t.envelope) d)
        "";
  tx_result =
      text_or (of_details (λ t. t.result_xdr_snake or_text t.result_xdr or_text t.result) d) "";
  tx_meta =
      text_or (of_details (λ t. t.result_meta_xdr_snake or_text t.result_meta_xdr or_text t.meta) d)
        "";
  tx_fee_bump = fee_bump_of d;
  tx_status = text_or (of_details (λ t. t.status) d) "unknown";
  tx_created_at = created_at_of d or_else time;
}

-- A time of 0 seconds counts as none.
abbrev seconds_or : Option ℕ → ℕ → ℕ
seconds_or none now = now
seconds_or (some s) now = if ltb 0 s then s * 1000 else now

unfoldable pub transaction_row : String → ℕ → TxDetails → TransactionRow
transaction_row hash now d = record {
  hash = hash;
  ledger = d.ledger or_else 0;
  source_account = text_or d.source_account "";
  fee = text_or (d.fee_soroban or_text d.fee) "0";
  operation_count = if ltb 0 (d.operation_count or_else 0) then d.operation_count or_else 0 else 1;
  envelope = text_or (d.envelope_xdr or_text d.envelope) "";
  result = text_or (d.result_xdr or_text d.result) "";
  meta = text_or (d.result_meta_xdr or_text d.meta) "";
  successful = (d.status or_else "") is "SUCCESS" || (d.status or_else "") is "success";
  timestamp = seconds_or d.created_at now;
}
