-- ===== src/Projection/Decoding.antt =====
-- apps/horizon/src/repository/ingest.repository.ts: what `upsertEventIndividually` reads from the value
-- of an event of a schema or an attestation. A value that should be a text and is none counts as absent.
-- Times in
-- values are seconds since 1970, and one before counts as 0.
use Prim.Native.String.{String}
use attest_so.Prelude.{
  ℕ, zero, suc, ◌*◌, Bool, true, false, ◌&&◌, List, [], ◌∷◌, Option, none, some, ◌or_else◌, text_or,
  ◌or_text◌, ◌is◌, truthy, if◌then◌else◌,
}
use attest_so.Ingest.Events.{EventData}
use attest_so.Registry.Attestations.{EventInfo}
use attest_so.Registry.Schemas.{SchemaData}
use attest_so.Listing.Params.{not_a_number, negative, natural, parse_int}
use attest_so.Projection.Values.{
  Native, undefined_value, null_value, flag, number, big, text, bytes, json_bytes, array, object,
  Natives, natives_end, native_item, Fields, fields_end, field_entry, buffer_to_hex,
}

-- What the decoding uses of Node and of the XDR library: `Buffer.from(text, 'base64')`,
-- `JSON.stringify`, the JSON text of `JSON.parse`, and `parseSchemaDefinition`.
pub record Codec : Type 0 where
  pub from_base64 : String → List ℕ
  pub stringify : Native → String
  pub parse_json : String → Option String
  pub parse_schema_definition : String → Option String

unfoldable pub item : Natives → ℕ → Native
item natives_end n = undefined_value
item (native_item v vs) zero = v
item (native_item v vs) (suc n) = item vs n

-- The entry with the name, which an object has once; `undefined` where there is none.
unfoldable pub entry : Fields → String → Native
entry fields_end name = undefined_value
entry (field_entry k v fs) name = let rest = entry fs name in if k is name then v else rest

unfoldable pub field : Native → String → Native
field (object fs) name = entry fs name
field undefined_value name = undefined_value
field null_value name = undefined_value
field (flag b) name = undefined_value
field (number n) name = undefined_value
field (big n) name = undefined_value
field (text t) name = undefined_value
field (bytes bs) name = undefined_value
field (json_bytes bs) name = undefined_value
field (array vs) name = undefined_value

abbrev pub as_text : Native → Option String
as_text (text t) = some t
as_text undefined_value = none
as_text null_value = none
as_text (flag b) = none
as_text (number n) = none
as_text (big n) = none
as_text (bytes bs) = none
as_text (json_bytes bs) = none
as_text (array vs) = none
as_text (object fs) = none

-- `value === true`, and `value !== false`.
abbrev pub is_true : Native → Bool
is_true (flag b) = b
is_true (text t) = false
is_true undefined_value = false
is_true null_value = false
is_true (number n) = false
is_true (big n) = false
is_true (bytes bs) = false
is_true (json_bytes bs) = false
is_true (array vs) = false
is_true (object fs) = false

abbrev pub is_not_false_value : Native → Bool
is_not_false_value (flag b) = b
is_not_false_value (text t) = true
is_not_false_value undefined_value = true
is_not_false_value null_value = true
is_not_false_value (number n) = true
is_not_false_value (big n) = true
is_not_false_value (bytes bs) = true
is_not_false_value (json_bytes bs) = true
is_not_false_value (array vs) = true
is_not_false_value (object fs) = true

-- `typeof value === 'object' ? value : undefined`, in a test: null is false.
abbrev pub is_object_value : Native → Bool
is_object_value (object fs) = true
is_object_value (array vs) = true
is_object_value (bytes bs) = true
is_object_value (json_bytes bs) = true
is_object_value (text t) = false
is_object_value undefined_value = false
is_object_value null_value = false
is_object_value (flag b) = false
is_object_value (number n) = false
is_object_value (big n) = false

-- The definition: a text as it is, and the JSON text of anything else, `{}` for what is absent.
unfoldable pub definition_text : Codec → Native → String
definition_text codec undefined_value = codec.stringify (object fields_end)
definition_text codec null_value = codec.stringify (object fields_end)
definition_text codec (text t) = t
definition_text codec (flag b) = codec.stringify (flag b)
definition_text codec (number n) = codec.stringify (number n)
definition_text codec (big n) = codec.stringify (big n)
definition_text codec (bytes bs) = codec.stringify (bytes bs)
definition_text codec (json_bytes bs) = codec.stringify (json_bytes bs)
definition_text codec (array vs) = codec.stringify (array vs)
definition_text codec (object fs) = codec.stringify (object fs)

-- A decoded parameter of the operation: its type and its value.
pub record OpParam : Type 0 where
  pub type : String
  pub decoded : Native

abbrev param : List OpParam → ℕ → Native
param [] n = undefined_value
param (p ∷ ps) zero = p.decoded
param (p ∷ ps) (suc n) = param ps n

-- The value of the first parameter of type `Map`.
abbrev map_param : List OpParam → Native
map_param [] = undefined_value
map_param (p ∷ ps) = let rest = map_param ps in if p.type is "Map" then p.decoded else rest

-- The uid in the event, or the one in the parameters of the operation.
unfoldable pub schema_uid_of : Codec → Natives → List OpParam → String
schema_uid_of codec vals params =
    let uid = buffer_to_hex codec.from_base64 (item vals 0) in
    if truthy uid
    then uid
    else buffer_to_hex codec.from_base64 (field (map_param params) "schema_uid")

-- The schema that an event registers, if it has a uid and an object. `source` is the account of the
-- transaction's details.
unfoldable pub registered_schema :
    Codec → EventData → ℕ → Option String → List OpParam → Natives → Option SchemaData
registered_schema codec e time source params vals =
    let uid = schema_uid_of codec vals params in
    let schema = item vals 1 in
    let definition = definition_text codec (field schema "definition") in
    if truthy uid && is_object_value schema
    then some (record {
      uid = uid;
      ledger = e.ledger;
      schema_definition = definition;
      parsed_schema_definition = codec.parse_schema_definition definition;
      resolver_address = as_text (field schema "resolver");
      revocable = some (is_not_false_value (field schema "revocable"));
      deployer_address = text_or (as_text (field schema "authority") or_text source) "";
      type = some "default";
      transaction_hash = e.transaction_hash;
      created_at = some time;
      contract_address = e.contract_id;
    })
    else none

abbrev pub non_empty : Option String → Option String
non_empty none = none
non_empty (some t) = if truthy t then some t else none

abbrev json_of : Codec → Option String → Option String
json_of codec none = none
json_of codec (some t) = codec.parse_json t

-- The attestation that an event creates: the uid is in the event, the rest in the parameters of the
-- operation.
unfoldable pub created_attestation : Codec → EventData → ℕ → List OpParam → Natives → EventInfo
created_attestation codec e time params vals = record {
  attestation_uid = buffer_to_hex codec.from_base64 (item vals 0);
  schema_uid = buffer_to_hex codec.from_base64 (param params 3);
  attester = as_text (param params 2) or_else "";
  subject = non_empty (as_text (param params 4));
  message = as_text (param params 5) or_else "";
  value = json_of codec (as_text (param params 5));
  ledger = e.ledger;
  transaction_hash = e.transaction_hash;
  contract_id = e.contract_id;
  timestamp = time;
}

-- The attestation that an event revokes: all of it is in the event.
unfoldable pub revoked_attestation : Codec → EventData → ℕ → Natives → EventInfo
revoked_attestation codec e time vals = record {
  attestation_uid = buffer_to_hex codec.from_base64 (item vals 0);
  schema_uid = buffer_to_hex codec.from_base64 (item vals 1);
  attester = as_text (item vals 2) or_else "";
  subject = non_empty (as_text (item vals 3));
  message = "";
  value = none;
  ledger = e.ledger;
  transaction_hash = e.transaction_hash;
  contract_id = e.contract_id;
  timestamp = time;
}

-- The time of the revocation in milliseconds, if the sixth value has one.
unfoldable pub revoked_at_of : Native → Option ℕ
revoked_at_of (big n) = some (n * 1000)
revoked_at_of (number n) = some (n * 1000)
revoked_at_of (text t) = elim (parse_int t) [
  | not_a_number ↦ none
  | negative ↦ some 0
  | natural n ↦ some (n * 1000)
]
revoked_at_of undefined_value = none
revoked_at_of null_value = none
revoked_at_of (flag b) = none
revoked_at_of (bytes bs) = none
revoked_at_of (json_bytes bs) = none
revoked_at_of (array vs) = none
revoked_at_of (object fs) = none
