-- ===== src/Projection/Storing.antt =====
-- What the processing of events leaves in the tables.
use attest_so.Prelude.{
  none, some, ◌≡◌, refl, inl, inr, ◌⊎◌, true, Option, ◌is◌, if◌then◌else◌, Bool-cases, Option-cases,
}
use attest_so.Ingest.Events.{EventData}
use attest_so.Projection.Values.{
  Native, Natives, undefined_value, null_value, flag, number, big, text, bytes, json_bytes, array,
  object,
}
use attest_so.Projection.Rows.{TxDetails, of_details}
use attest_so.Projection.Decoding.{registered_schema}
use attest_so.Projection.Processing.{
  Tables, Database, World, elements, project_schema, project_attestation, project_revocation,
  project,
}

module _ (tables : Tables) where
  -- What a projection changes: nothing, or, of an event whose value is the array, the schemas or the
  -- attestations.
  unfoldable pub ProjectsOne : Native → EventData → Database tables → Database tables → Type 0
  ProjectsOne value e db db' =
      (db' ≡ db)
      ⊎ ((vs : Natives) × (value ≡ array vs)
          × (((e.event_type is "SCHEMA:REGISTER") ≡ true)
                × ((s : tables.schemas.State) × (db' ≡ record db { schemas = s }))
              ⊎ (((e.event_type is "ATTEST:CREATE") ≡ true)
                  ⊎ ((e.event_type is "ATTEST:REVOKE") ≡ true))
                × ((s : tables.attestations.State) × (db' ≡ record db { attestations = s }))))

  untouched : (value : Native) (e : EventData) (db : Database tables) → ProjectsOne value e db db
  unfolding ProjectsOne
  untouched value e db = inl refl

  writes_schemas :
      (vs : Natives) (e : EventData) (db : Database tables) (s : tables.schemas.State)
      → (e.event_type is "SCHEMA:REGISTER") ≡ true
      → ProjectsOne (array vs) e db (record db { schemas = s })
  unfolding ProjectsOne
  writes_schemas vs e db s named = inr (vs, refl, inl (named, (s, refl)))

  writes_attestations :
      (vs : Natives) (e : EventData) (db : Database tables) (s : tables.attestations.State)
      → ((e.event_type is "ATTEST:CREATE") ≡ true) ⊎ ((e.event_type is "ATTEST:REVOKE") ≡ true)
      → ProjectsOne (array vs) e db (record db { attestations = s })
  unfolding ProjectsOne
  writes_attestations vs e db s named = inr (vs, refl, inr (named, (s, refl)))

  project_schema-ProjectsOne :
      (w : World tables) (e : EventData) (d : Option TxDetails) (vals : Natives)
      (db : Database tables)
      → (e.event_type is "SCHEMA:REGISTER") ≡ true
      → ProjectsOne (array vals) e db (project_schema tables w e d vals db)
  unfolding project_schema
  project_schema-ProjectsOne w e d vals db named =
      elim (Option-cases (
        registered_schema w.codec e (w.parse_time e.timestamp)
          (of_details (λ t. t.source_account) d) (w.op_params e.transaction_hash db.operations)
          vals)) [
            | inl nothing ↦ rw (nothing, project_schema) (untouched (array vals) e db)
            | inr (schema, found) ↦ rw (found, project_schema) (writes_schemas vals e db _ named)
          ]

  project_attestation-ProjectsOne :
      (w : World tables) (e : EventData) (vals : Natives) (db : Database tables)
      → (e.event_type is "ATTEST:CREATE") ≡ true
      → ProjectsOne (array vals) e db (project_attestation tables w e vals db)
  unfolding project_attestation
  project_attestation-ProjectsOne w e vals db named = writes_attestations vals e db _ (inl named)

  project_revocation-ProjectsOne :
      (w : World tables) (e : EventData) (vals : Natives) (db : Database tables)
      → (e.event_type is "ATTEST:REVOKE") ≡ true
      → ProjectsOne (array vals) e db (project_revocation tables w e vals db)
  unfolding project_revocation
  project_revocation-ProjectsOne w e vals db named = writes_attestations vals e db _ (inr named)

  project_values :
      (w : World tables) (e : EventData) (d : Option TxDetails) (vals : Natives)
      (db : Database tables)
      → ProjectsOne (array vals) e db (
          if e.event_type is "SCHEMA:REGISTER"
          then project_schema tables w e d vals db
          else if e.event_type is "ATTEST:CREATE"
          then project_attestation tables w e vals db
          else if e.event_type is "ATTEST:REVOKE"
          then project_revocation tables w e vals db
          else db)
  project_values w e d vals db = elim (Bool-cases (e.event_type is "SCHEMA:REGISTER")) [
    | inl schema ↦ rw schema (project_schema-ProjectsOne w e d vals db schema)
    | inr n₁ ↦ elim (Bool-cases (e.event_type is "ATTEST:CREATE")) [
      | inl create ↦ rw (n₁, create) (project_attestation-ProjectsOne w e vals db create)
      | inr n₂ ↦ elim (Bool-cases (e.event_type is "ATTEST:REVOKE")) [
        | inl revoke ↦ rw (n₁, n₂, revoke) (project_revocation-ProjectsOne w e vals db revoke)
        | inr n₃ ↦ rw (n₁, n₂, n₃) (untouched (array vals) e db)
      ]
    ]
  ]

-- `Array.isArray` holds of arrays only.
elements-array :
    (tables : Tables) (v : Native)
    → (elements tables v ≡ none) ⊎ ((vs : Natives) × (v ≡ array vs) × (elements tables v ≡ some vs))
elements-array tables (array vs) = inr (vs, refl, refl)
elements-array tables undefined_value = inl refl
elements-array tables null_value = inl refl
elements-array tables (flag b) = inl refl
elements-array tables (number n) = inl refl
elements-array tables (big n) = inl refl
elements-array tables (text t) = inl refl
elements-array tables (bytes bs) = inl refl
elements-array tables (json_bytes bs) = inl refl
elements-array tables (object fs) = inl refl

-- The projection of an event leaves the tables as they are, or it changes one registry, and then the
-- value of the event is an array: the table of schemas for SCHEMA:REGISTER, that of attestations for
-- ATTEST:CREATE and ATTEST:REVOKE.
pub project-ProjectsOne :
    (tables : Tables) (w : World tables) (e : EventData) (d : Option TxDetails)
    (db : Database tables)
    → ProjectsOne tables (w.native_of e.event_data) e db (project tables w e d db)
unfolding project
project-ProjectsOne tables w e d db = elim (elements-array tables (w.native_of e.event_data)) [
  | inl nothing ↦ rw (nothing, project) (untouched tables (w.native_of e.event_data) e db)
  | inr (vals, is_array, found) ↦
      rw (found, project) (rw is_array (project_values tables w e d vals db))
]
