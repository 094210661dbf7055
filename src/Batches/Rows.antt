-- ===== src/Batches/Rows.antt =====
-- apps/horizon/src/repository/events.repository.ts: the rows that `storeEventsAndTransactionsInDB` makes
-- of an item.
use Prim.Native.String.{String}
use attest_so.Prelude.{
  ℕ, true, false, Option, none, some, ◌or_else◌, ◌or_text◌, text_or, truthy, if◌then◌else◌,
}
use attest_so.Listing.Params.{Parsed, not_a_number, negative, natural, parse_int}
use attest_so.Projection.Values.{
  Native, undefined_value, null_value, flag, number, big, text, bytes, json_bytes, array, object,
  fields_end, field_entry,
}
use attest_so.Batches.Types.{
  LedgerValue, no_ledger, ledger_number, ledger_text, ItemEvent, TxInfo, EventItem,
  StoredTransaction, StoredEvent,
}

-- `{}`, where neither name has details.
abbrev pub no_details : TxInfo
no_details = record {
  hash = none;
  tx_hash = none;
  source_account = none;
  fee = none;
  operation_count = none;
  envelope_xdr = none;
  envelope = none;
  result_xdr = none;
  result = none;
  result_meta_xdr = none;
  meta = none;
  fee_bump = false;
  successful = none;
  memo = none;
  memo_type = none;
  inclusion_fee = none;
  resource_fee = none;
  soroban_resource_usage = none;
  status = none;
}

abbrev first_details : Option TxInfo → Option TxInfo → TxInfo
first_details none none = no_details
first_details none (some t) = t
first_details (some t) other = t

abbrev pub details_of : EventItem → TxInfo
details_of item = first_details item.transaction_details item.transaction

-- An empty text counts as none.
abbrev pub given_text : Option String → Option String
given_text none = none
given_text (some t) = if truthy t then some t else none

-- The hash that the transaction is stored under.
unfoldable pub hash_of : TxInfo → Option String
hash_of t = given_text (t.hash or_text t.tx_hash)

-- The hash that the event refers to.
unfoldable pub reference_of : ItemEvent → TxInfo → Option String
reference_of e t = given_text (e.tx_hash or_text t.tx_hash or_text t.hash)

abbrev pub given_or : {A : Type 0} → Option A → Option A → Option A
given_or none old = old
given_or (some a) old = some a

-- `parseInt`, none where it gives no number; ledgers are not negative.
abbrev parsed_number : Parsed → Option ℕ
parsed_number not_a_number = none
parsed_number negative = none
parsed_number (natural n) = some n

abbrev pub ledger_number_of : LedgerValue → Option ℕ
ledger_number_of no_ledger = none
ledger_number_of (ledger_number n) = some n
ledger_number_of (ledger_text t) = parsed_number (parse_int t)

-- `new Date(text)`, or the present.
abbrev pub time_or : (String → ℕ) → Option String → ℕ → ℕ
time_or parse_time none now = now
time_or parse_time (some t) now = if truthy t then parse_time t else now

abbrev or_null : Native → Native
or_null undefined_value = null_value
or_null null_value = null_value
or_null (flag b) = flag b
or_null (number n) = number n
or_null (big n) = big n
or_null (text t) = text t
or_null (bytes bs) = bytes bs
or_null (json_bytes bs) = json_bytes bs
or_null (array vs) = array vs
or_null (object fs) = object fs

-- `v ?? d`
abbrev or_default : Native → Native → Native
or_default undefined_value d = d
or_default null_value d = d
or_default (flag b) d = flag b
or_default (number n) d = number n
or_default (big n) d = big n
or_default (text t) d = text t
or_default (bytes bs) d = bytes bs
or_default (json_bytes bs) d = json_bytes bs
or_default (array vs) d = array vs
or_default (object fs) d = object fs

unfoldable pub stored_transaction :
    (String → ℕ) → ℕ → String → ItemEvent → TxInfo → StoredTransaction
stored_transaction parse_time now hash e t = record {
  hash = hash;
  ledger = ledger_number_of e.ledger;
  timestamp = time_or parse_time (e.timestamp or_text e.ledger_closed_at) now;
  source_account = text_or t.source_account "";
  fee = text_or t.fee "0";
  operation_count = t.operation_count or_else 0;
  envelope = given_text (t.envelope_xdr or_text t.envelope);
  result = given_text (t.result_xdr or_text t.result);
  meta = given_text (t.result_meta_xdr or_text t.meta);
  fee_bump = t.fee_bump;
  successful = t.successful or_else true;
  memo = t.memo;
  memo_type = t.memo_type;
  inclusion_fee = t.inclusion_fee;
  resource_fee = t.resource_fee;
  soroban_resource_usage = given_text t.soroban_resource_usage;
}

-- An update leaves the fields that are undefined as they were.
unfoldable pub updated_transaction : StoredTransaction → StoredTransaction → StoredTransaction
updated_transaction row old = record row {
  ledger = given_or row.ledger old.ledger;
  memo = given_or row.memo old.memo;
  memo_type = given_or row.memo_type old.memo_type;
  inclusion_fee = given_or row.inclusion_fee old.inclusion_fee;
  resource_fee = given_or row.resource_fee old.resource_fee;
}

abbrev event_content : ItemEvent → Native
event_content e = object (
    field_entry "topic" (or_null e.topic) (
      field_entry "value" (or_null e.value) (
        field_entry "pagingToken" (or_null e.paging_token) (
          field_entry "inSuccessfulContractCall" (or_null e.in_successful_contract_call)
            fields_end))))

-- The event refers to a transaction only where that is stored.
unfoldable pub stored_event : (String → ℕ) → ℕ → ItemEvent → TxInfo → StoredEvent
stored_event parse_time now e t =
    let time = time_or parse_time (e.timestamp or_text e.ledger_closed_at) now in
    record {
      event_id = e.id;
      ledger = ledger_number_of e.ledger or_else 0;
      timestamp = time;
      contract_id = text_or e.contract_id "";
      event_type = text_or e.type "unknown";
      event_data = or_default e.data_value (event_content e);
      tx_hash = elim (hash_of t) [ none ↦ none | some h ↦ reference_of e t ];
      tx_envelope = text_or (t.envelope_xdr or_text t.envelope) "";
      tx_result = text_or (t.result_xdr or_text t.result) "";
      tx_meta = text_or (t.result_meta_xdr or_text t.meta) "";
      tx_fee_bump = t.fee_bump;
      tx_status = text_or t.status "unknown";
      tx_created_at = time;
    }
