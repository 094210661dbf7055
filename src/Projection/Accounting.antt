-- ===== src/Projection/Accounting.antt =====
-- What becomes of each event that is processed: its row, or its error.
use Prim.Native.String.{String}
use text.Mathlib.TextEquality.{eq_iff}
use attest_so.Prelude.{
  ◌≡◌, refl, ap, ◌∙◌, inl, inr, ◌⊎◌, List, [], ◌∷◌, Option, none, some, All, Has, Has-append_left,
  Has-append_right, ◌is◌, Bool-cases, Option-cases, ◌&◌,
}
use attest_so.Storage.{put, find-put}
use attest_so.Ingest.Events.{EventData}
use attest_so.Ingest.Recurring.{EventOutcome, Tally}
use attest_so.Backfill.Loop.{settle_event, process_events}
use attest_so.Projection.Rows.{TxDetails, EventRow, event_row}
use attest_so.Projection.Processing.{
  Tables, Database, World, project, details_for, upsert_event_individually, process_event,
  processor,
}
use attest_so.Projection.Storing.{ProjectsOne, project-ProjectsOne}

settle_event-errors :
    (P : String → Type 0) (e : EventData) (o : EventOutcome) (t : Tally)
    → Has P t.errors
    → Has P (settle_event e o t).errors
unfolding settle_event
settle_event-errors P e o t h = elim (Option-cases o.error) [
  | inl fine ↦ rw (fine, settle_event) h
  | inr (m, failed) ↦ rw (failed, settle_event) (Has-append_left P t.errors _ h)
]

module _ (tables : Tables) (w : World tables) where
  project-events :
      (e : EventData) (d : Option TxDetails) (db : Database tables)
      → (project tables w e d db).events ≡ db.events
  unfolding ProjectsOne
  project-events e d db = elim (project-ProjectsOne tables w e d db) [
    | inl same ↦ ap (λ t. t.events) same
    | inr (vs, is_array, inl (named, (s, schemas))) ↦ ap (λ t. t.events) schemas
    | inr (vs, is_array, inr (named, (s, attestations))) ↦ ap (λ t. t.events) attestations
  ]

  -- The two ways in which the upsert of an event ends.
  upsert_event-cases :
      (e : EventData) (operation_id : Option String) (db : Database tables)
      → let (after, error) = upsert_event_individually tables w e operation_id db in
        ((row : EventRow) × (error ≡ none)
          × (after.events ≡ put tables.events e.event_id row db.events))
        ⊎ ((error ≡ some w.refusal) × (after.events ≡ db.events))
  unfolding upsert_event_individually
  upsert_event-cases e operation_id db =
      let row = event_row e (w.parse_time e.timestamp) operation_id (details_for tables w e) in
      elim (Bool-cases (w.accepts_event row)) [
        | inl accepted ↦
            rw (accepted, upsert_event_individually)
              (inl (row, refl, project-events e (details_for tables w e) _))
        | inr refused ↦ rw (refused, upsert_event_individually) (inr (refl, refl))
      ]

  process_event-cases :
      (e : EventData) (db : Database tables)
      → let (after, o) = process_event tables w e db in
        ((row : EventRow) × (o.error ≡ none)
          × (after.events ≡ put tables.events e.event_id row db.events))
        ⊎ ((o.error ≡ some w.refusal) × (after.events ≡ db.events))
  unfolding process_event
  process_event-cases e db = upsert_event-cases e _ _

  -- The event has a row, or an error says that it has none.
  unfoldable pub IsAccounted : Tally → Database tables → EventData → Type 0
  IsAccounted t db e =
      ((row : EventRow) × (tables.events.find e.event_id db.events ≡ some row))
      ⊎ Has (λ m. m ≡ "Error processing event " & e.event_id & ": " & w.refusal) t.errors

  settle_event-accounts :
      (e : EventData) (db : Database tables) (t : Tally)
      → let (after, o) = process_event tables w e db in IsAccounted (settle_event e o t) after e
  unfolding IsAccounted settle_event process_event
  settle_event-accounts e db t = elim (process_event-cases e db) [
    | inl (row, fine, stored) ↦ inl (
      row,
      ap (tables.events.find e.event_id) stored
          ∙ find-put tables.events e.event_id e.event_id row db.events
          ∙ rw ((eq_iff e.event_id e.event_id).1 refl) refl,
    )
    | inr (failed, same) ↦ inr (rw failed (Has-append_right _ t.errors _ (inl refl)))
  ]

  process_event-rows :
      (e other : EventData) (db : Database tables) (row : EventRow)
      → tables.events.find other.event_id db.events ≡ some row
      → (r : EventRow) × (tables.events.find other.event_id (process_event tables w e db).0.events
          ≡ some r)
  process_event-rows e other db row found = elim (process_event-cases e db) [
    | inr (failed, same) ↦ (row, ap (tables.events.find other.event_id) same ∙ found)
    | inl (written, fine, stored) ↦
        let here =
          ap (tables.events.find other.event_id) stored
          ∙ find-put tables.events other.event_id e.event_id written db.events in
        elim (Bool-cases (e.event_id is other.event_id)) [
          | inl same ↦ (written, here ∙ rw same refl)
          | inr apart ↦ (row, here ∙ rw (apart, found) refl)
        ]
  ]

  settle_event-keeps :
      (e other : EventData) (db : Database tables) (t : Tally)
      → IsAccounted t db other
      → let (after, o) = process_event tables w e db in IsAccounted (settle_event e o t) after other
  unfolding IsAccounted
  settle_event-keeps e other db t (inr h) = inr (settle_event-errors _ e _ t h)
  settle_event-keeps e other db t (inl (row, found)) = inl (process_event-rows e other db row found)

  process_events-keep :
      (es : List EventData) (other : EventData) (t : Tally) (db : Database tables)
      → IsAccounted t db other
      → let (t', db') = process_events (processor tables w) es t db in IsAccounted t' db' other
  unfolding process_events
  process_events-keep [] other t db h = h
  process_events-keep (e ∷ es) other t db h =
      process_events-keep es other _ _ (settle_event-keeps e other db t h)

-- Every event of a list that is processed is accounted for, whatever the node and the database answer:
-- in the end either the table of events has its row, or the errors of the tally name its id.
pub process_events-account :
    (tables : Tables) (w : World tables) (es : List EventData) (t : Tally) (db : Database tables)
    → let (t', db') = process_events (processor tables w) es t db in
      All (IsAccounted tables w t' db') es
unfolding process_events
process_events-account tables w [] t db = tt
process_events-account tables w (e ∷ es) t db = (
  process_events-keep tables w es e _ _ (settle_event-accounts tables w e db t),
  process_events-account tables w es _ _,
)
