-- ===== src/Batches/Projections.antt =====
-- apps/horizon/src/repository/events.repository.ts: the projections that `storeEventsAndTransactionsInDB`
-- makes of a batch once it is stored. They read the values of an event otherwise than the recurring
-- ingestion does.
use Prim.Native.String.{String}
use attest_so.Prelude.{
  ℕ, ◌*◌, Bool, true, false, ◌&&◌, Option, none, some, ◌or_else◌, ◌or_text◌, text_or, includes,
  truthy, if◌then◌else◌,
}
use attest_so.Listing.Params.{not_a_number, negative, natural, parse_int}
use attest_so.Registry.Store.{AttestationData}
use attest_so.Registry.Schemas.{SchemaData}
use attest_so.Projection.Values.{
  Native, undefined_value, null_value, flag, number, big, text, bytes, json_bytes, array, object,
  Natives, string_of,
}
use attest_so.Projection.Decoding.{
  Codec, item, field, as_text, is_not_false_value, is_object_value, definition_text, non_empty,
}
use attest_so.Batches.Texts.{to_upper_case, starts_with_brace}
use attest_so.Batches.Types.{TxInfo, ItemEvent}
use attest_so.Batches.Rows.{ledger_number_of, time_or}

abbrev pub kind_of : ItemEvent → String
kind_of e = text_or (e.type or_text e.event_type) "unknown"

abbrev as_array : Native → Option Natives
as_array (array vs) = some vs
as_array undefined_value = none
as_array null_value = none
as_array (flag b) = none
as_array (number n) = none
as_array (big n) = none
as_array (text t) = none
as_array (bytes bs) = none
as_array (json_bytes bs) = none
as_array (object fs) = none

abbrev first_array : Option Natives → Option Natives → Option Natives
first_array none other = other
first_array (some vs) other = some vs

-- The values: of `data`, or of `value`.
abbrev pub values_of : ItemEvent → Option Natives
values_of e = first_array (as_array e.data_value) (as_array e.value)

-- `text || ''`, of a value that is a text.
abbrev text_of : Native → String
text_of v = as_text v or_else ""

-- The message, from the fifth value.
unfoldable pub message_of : Codec → Native → String
message_of codec (text t) = t
message_of codec null_value = codec.stringify null_value
message_of codec (bytes bs) = codec.stringify (bytes bs)
message_of codec (json_bytes bs) = codec.stringify (json_bytes bs)
message_of codec (array vs) = codec.stringify (array vs)
message_of codec (object fs) = codec.stringify (object fs)
message_of codec undefined_value = ""
message_of codec (flag b) = string_of (flag b)
message_of codec (number n) = string_of (number n)
message_of codec (big n) = string_of (big n)

abbrev json_value_of : Codec → Option String → Option String
json_value_of codec none = none
json_value_of codec (some t) = if starts_with_brace t then codec.parse_json t else none

-- The time of a revocation, where the sixth value is a number or a text with one.
unfoldable pub time_in : Native → Option ℕ
time_in (number n) = some (n * 1000)
time_in (text t) = elim (parse_int t) [
  | not_a_number ↦ none
  | negative ↦ some 0
  | natural n ↦ some (n * 1000)
]
time_in undefined_value = none
time_in null_value = none
time_in (flag b) = none
time_in (big n) = none
time_in (bytes bs) = none
time_in (json_bytes bs) = none
time_in (array vs) = none
time_in (object fs) = none

abbrev transaction_of : ItemEvent → TxInfo → String
transaction_of e t = text_or (e.tx_hash or_text t.hash or_text t.tx_hash) ""

unfoldable pub schema_of_item : Codec → ItemEvent → TxInfo → Natives → Option SchemaData
schema_of_item codec e t vals =
    let uid = text_of (item vals 0) in
    let schema = item vals 1 in
    let definition = definition_text codec (field schema "definition") in
    if truthy uid && is_object_value schema
    then some (record {
      uid = uid;
      ledger = ledger_number_of e.ledger or_else 0;
      schema_definition = definition;
      parsed_schema_definition = codec.parse_schema_definition definition;
      resolver_address = as_text (field schema "resolver");
      revocable = some (is_not_false_value (field schema "revocable"));
      deployer_address = text_or (as_text (field schema "authority") or_text t.source_account) "";
      type = some "default";
      transaction_hash = transaction_of e t;
      created_at = none;
      contract_address = text_or e.contract_id "";
    })
    else none

unfoldable pub creation_of_item : Codec → ItemEvent → TxInfo → Natives → Option AttestationData
creation_of_item codec e t vals =
    let uid = text_of (item vals 0) in
    let schema = text_of (item vals 1) in
    let attester = text_of (item vals 2) in
    if truthy uid && (truthy schema && truthy attester)
    then some (record {
      attestation_uid = uid;
      ledger = ledger_number_of e.ledger or_else 0;
      schema_uid = schema;
      attester_address = attester;
      subject_address = non_empty (as_text (item vals 3));
      transaction_hash = transaction_of e t;
      schema_encoding = "JSON";
      message = message_of codec (item vals 4);
      value = json_value_of codec (as_text (item vals 4));
      revoked = some false;
      revoked_at = none;
      created_at = none;
      contract_address = text_or e.contract_id "";
    })
    else none

-- A revocation revokes whatever its fifth value says.
unfoldable pub revocation_of_item :
    (String → ℕ) → ℕ → ItemEvent → TxInfo → Natives → Option AttestationData
revocation_of_item parse_time now e t vals =
    let uid = text_of (item vals 0) in
    if truthy uid
    then some (record {
      attestation_uid = uid;
      ledger = ledger_number_of e.ledger or_else 0;
      schema_uid = text_of (item vals 1);
      attester_address = text_of (item vals 2);
      subject_address = non_empty (as_text (item vals 3));
      transaction_hash = transaction_of e t;
      schema_encoding = "JSON";
      message = "";
      value = none;
      revoked = some true;
      revoked_at = some (time_in (item vals 5) or_else time_or parse_time e.timestamp now);
      created_at = none;
      contract_address = text_or e.contract_id "";
    })
    else none

abbrev pub is_revocation : String → Bool
is_revocation type =
    includes (to_upper_case type) "ATTEST" && includes (to_upper_case type) "REVOKE"
