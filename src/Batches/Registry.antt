-- ===== src/Batches/Registry.antt =====
-- apps/horizon/src/repository/events.repository.ts: the registry after the projections of a batch, and
-- `storeEventsAndTransactionsInDB` as a whole.
use Prim.Native.String.{String}
use attest_so.Prelude.{ℕ, Bool, true, List, [], ◌∷◌, Option, none, some, ◌is◌, if◌then◌else◌}
use attest_so.Registry.Store.{AttestationData, AttestationStore}
use attest_so.Registry.Attestations.{single_upsert_attestation}
use attest_so.Registry.Schemas.{SchemaData, SchemaRow, single_upsert_schema}
use attest_so.Storage.{Table}
use attest_so.Projection.Values.{Natives}
use attest_so.Projection.Decoding.{Codec}
use attest_so.Batches.Types.{EventItem, TxInfo, ItemEvent}
use attest_so.Batches.Rows.{details_of}
use attest_so.Batches.Events.{BatchSetting, EventTables, EventDatabase, store_batch_of_events}
use attest_so.Batches.Projections.{
  kind_of, values_of, schema_of_item, creation_of_item, revocation_of_item, is_revocation,
}

-- The tables of the registry, and what their statements meet.
pub record RegistryTables : Type 1 where
  pub schemas : Table SchemaRow
  pub attestations : AttestationStore

pub record RegistrySetting : Type 0 where
  pub codec : Codec
  pub parse_time : String → ℕ
  pub now : ℕ
  pub accepts_schema : SchemaData → Bool
  pub accepts_attestation : AttestationData → Bool

module _ (tables : RegistryTables) where
  pub record RegistryState : Type 0 where
    pub schemas : tables.schemas.State
    pub attestations : tables.attestations.State

  unfoldable pub put_schema : RegistrySetting → Option SchemaData → RegistryState → RegistryState
  put_schema w none r = r
  put_schema w (some d) r = record r {
    schemas = (single_upsert_schema tables.schemas true (w.accepts_schema d) w.now d r.schemas).0;
  }

  unfoldable pub put_attestation :
      RegistrySetting → Option AttestationData → RegistryState → RegistryState
  put_attestation w none r = r
  put_attestation w (some d) r = record r {
    attestations =
        (single_upsert_attestation tables.attestations true (w.accepts_attestation d) w.now d
          r.attestations).0;
  }

  -- The three tests, one after the other.
  unfoldable pub project_values :
      RegistrySetting → ItemEvent → TxInfo → Natives → RegistryState → RegistryState
  project_values w e t vals r =
      let kind = kind_of e in
      let registered =
        if kind is "SCHEMA:REGISTER" then put_schema w (schema_of_item w.codec e t vals) r else r in
      let created =
        if kind is "ATTEST:CREATE"
        then put_attestation w (creation_of_item w.codec e t vals) registered
        else registered in
      if is_revocation kind
      then put_attestation w (revocation_of_item w.parse_time w.now e t vals) created
      else created

  unfoldable project_item : RegistrySetting → EventItem → RegistryState → RegistryState
  project_item w item r = elim (values_of item.event) [
    | none ↦ r
    | some vals ↦ project_values w item.event (details_of item) vals r
  ]

  unfoldable project_items : RegistrySetting → List EventItem → RegistryState → RegistryState
  project_items w [] r = r
  project_items w (item ∷ items) r = project_items w items (project_item w item r)

-- A batch that is not stored leaves the registry alone as well.
unfoldable store_events_and_transactions :
    (events : EventTables) (registry : RegistryTables)
    → BatchSetting
    → RegistrySetting
    → Bool
    → List EventItem
    → EventDatabase events × RegistryState registry
    → EventDatabase events × RegistryState registry
store_events_and_transactions events registry w v connected items (db, r) =
    let (after, stored) = store_batch_of_events events w connected items db in
    (after, if stored then project_items registry v items r else r)
