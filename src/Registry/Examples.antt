-- ===== src/Registry/Examples.antt =====
-- The table of attestations as a list of rows, and the theorems at such a table.
use Prim.Native.String.{String}
use attest_so.Prelude.{◌≡◌, refl, true, false, List, [], ◌∷◌, none, some, length, filter}
use attest_so.Storage.Rows.{rows_table, find_row}
use Prim.Native.String.{String}
use attest_so.Registry.Schemas.{SchemaData, SchemaRow, created_schema, bulk_upsert_schemas}
use attest_so.Registry.SchemaHistory.{SameSchema, bulk_upsert_schemas-keeps}
use attest_so.Registry.Store.{AttestationData, Attestation, AttestationStore}
use attest_so.Registry.Attestations.{
  created_row, EventInfo, data_of_create, bulk_upsert_attestations, project_create, project_revoke,
}
use attest_so.Registry.History.{row_after, bulk_upsert_attestations-row, replayed_create_revives}

abbrev Rows : Type 0
Rows = List (String × Attestation)

abbrev table : AttestationStore
table = rows_table Attestation

abbrev event : EventInfo
event = record {
  attestation_uid = "a1";
  schema_uid = "s1";
  attester = "GUNIVERSITY";
  subject = some "GALICE";
  message = "{}";
  value = none;
  ledger = 10;
  transaction_hash = "h";
  contract_id = "CA";
  timestamp = 1000;
}

abbrev stored_once : Rows
stored_once = ("a1", created_row 5 (data_of_create event)) ∷ []

abbrev two_data : List AttestationData
two_data = data_of_create event ∷ data_of_create (record event { attestation_uid = "a2" }) ∷ []

bulk_upsert_attestations-row_example :
    let (s', count) = bulk_upsert_attestations table true true (λ d. true) 7 two_data stored_once in
    (table.find "a1" s' ≡ row_after (λ d. true) 7 "a1" (table.find "a1" stored_once) two_data)
    × (count ≡ length (filter (λ d. true) two_data))
bulk_upsert_attestations-row_example =
    bulk_upsert_attestations-row table (λ d. true) 7 "a1" two_data stored_once

replayed_create_revives_example :
    let revoked = project_revoke table true true 7 event true (some 1500) stored_once in
    let replayed = project_create table true true 9 event revoked in
    ((r : Attestation) × (table.find "a1" revoked ≡ some r)
      × (r.revoked ≡ true)
      × (r.revoked_at ≡ some 1500))
    × ((r : Attestation) × (table.find "a1" replayed ≡ some r)
        × (r.revoked ≡ false)
        × (r.revoked_at ≡ some 1500))
replayed_create_revives_example =
    replayed_create_revives table 7 9 event event 1500 stored_once refl refl refl

abbrev schema_data : SchemaData
schema_data = record {
  uid = "s1";
  ledger = 9;
  schema_definition = "{}";
  parsed_schema_definition = none;
  resolver_address = none;
  revocable = some false;
  deployer_address = "GA";
  type = none;
  transaction_hash = "h";
  created_at = some 9;
  contract_address = "CA";
}

abbrev other_data : SchemaData
other_data = record schema_data { revocable = none; schema_definition = "other" }

abbrev schema_rows : List (String × SchemaRow)
schema_rows = ("s1", created_schema schema_data) ∷ []

bulk_upsert_schemas-keeps_example :
    (r' : SchemaRow) × (find_row "s1"
        (bulk_upsert_schemas
          (rows_table SchemaRow)
          true
          true
          (λ d. true)
          7
          (other_data ∷ [])
          schema_rows).0
      ≡ some r')
    × SameSchema (created_schema schema_data) r'
bulk_upsert_schemas-keeps_example =
    bulk_upsert_schemas-keeps (rows_table SchemaRow) true true (λ d. true) 7 "s1" (other_data ∷ [])
      schema_rows (created_schema schema_data) refl
