-- ===== src/Ingest/Events.antt =====
-- apps/horizon/src/repository/ingest.repository.ts: `parseEventData`, and the order in which
-- `performRecurringIngestion` goes through the events.
use Prim.Native.String.{String}
use attest_so.Prelude.{
  ℕ, Bool, not, ◌&&◌, ◌||◌, List, [], ◌∷◌, ◌++◌, Option, none, some, filter, ◌is◌, includes, ◌&◌,
}

pub record RawEvent : Type 0 where
  pub id : String
  pub ledger : ℕ
  pub contract_id : String
  pub topic : List String
  pub value : String
  pub ledger_closed_at : String
  pub tx_hash : String

pub record EventData : Type 0 where
  pub event_id : String
  pub ledger : ℕ
  pub contract_id : String
  pub event_type : String
  pub event_data : String
  pub timestamp : String
  pub transaction_hash : String

-- `scValToNative(xdr.ScVal.fromXDR(…))`, of a topic and of a value; `none` where it throws, with
-- `error_message`. Buffers
-- in a value come out as text, as `convertBuffersToHex` writes them.
pub record Decoder : Type 0 where
  pub decode_topic : String → Option String
  pub decode_value : String → Option String
  pub error_message : String

-- `Array.join(':')`
abbrev join_from : String → List String → String
join_from acc [] = acc
join_from acc (t ∷ ts) = join_from (acc & ":" & t) ts

abbrev join : List String → String
join [] = ""
join (t ∷ ts) = join_from t ts

unfoldable pub decode_all : (String → Option String) → List String → Option (List String)
decode_all decode [] = some []
decode_all decode (t ∷ ts) = elim (decode t) [
  | none ↦ none
  | some x ↦ elim (decode_all decode ts) [ none ↦ none | some xs ↦ some (x ∷ xs) ]
]

unfoldable pub parse_event_data : Decoder → RawEvent → Option EventData
unfolding decode_all
parse_event_data d raw = elim (d.decode_value raw.value) [
  | none ↦ none
  | some native ↦ elim (decode_all d.decode_topic raw.topic) [
    | none ↦ none
    | some topics ↦ some (record {
      event_id = raw.id;
      ledger = raw.ledger;
      contract_id = raw.contract_id;
      event_type = join topics;
      event_data = native;
      timestamp = raw.ledger_closed_at;
      transaction_hash = raw.tx_hash;
    })
  ]
]

unfoldable pub parse_all : Decoder → List RawEvent → Option (List EventData)
unfolding parse_event_data
parse_all d [] = some []
parse_all d (r ∷ rs) = elim (parse_event_data d r) [
  | none ↦ none
  | some e ↦ elim (parse_all d rs) [ none ↦ none | some es ↦ some (e ∷ es) ]
]

abbrev pub is_schema_event : EventData → Bool
is_schema_event e = e.event_type is "SCHEMA:REGISTER" || e.event_type is "SCHEMA:CREATE"

abbrev pub is_attestation_event : EventData → Bool
is_attestation_event e = e.event_type is "ATTEST:CREATE" || e.event_type is "ATTEST:REVOKE"

abbrev pub is_bls_key_event : EventData → Bool
is_bls_key_event e = e.event_type is "BLS_KEY:REGISTER" || includes e.event_type "BLS_KEY"

abbrev pub is_other_event : EventData → Bool
is_other_event e =
    not (e.event_type is "SCHEMA:REGISTER")
    && not (e.event_type is "SCHEMA:CREATE")
    && not (e.event_type is "ATTEST:CREATE")
    && not (e.event_type is "ATTEST:REVOKE")
    && not (includes e.event_type "BLS_KEY")

-- Schemas first, then attestations, then keys, then the rest.
unfoldable pub ordered_events : List EventData → List EventData
ordered_events es =
    filter is_schema_event es
    ++ (filter is_attestation_event es ++ (filter is_bls_key_event es ++ filter is_other_event es))
