-- ===== src/Batches/Events.antt =====
-- apps/horizon/src/repository/events.repository.ts: `storeEventsAndTransactionsInDB`. The writes of a
-- batch are one transaction of the database, which keeps all of them or none; the projections come
-- after. What the database accepts is given, and so are the functions of Node.
use Prim.Native.String.{String}
use attest_so.Prelude.{
  ℕ, Bool, true, false, List, [], ◌∷◌, ◌++◌, Option, none, some, if◌then◌else◌, map,
}
use attest_so.Storage.{Table, put}
use attest_so.Batches.Types.{EventItem, StoredTransaction, StoredEvent}
use attest_so.Batches.Rows.{
  details_of, hash_of, stored_transaction, updated_transaction, stored_event,
}

-- A statement of the transaction.
pub data Write : Type 0 where
  write_transaction : String → StoredTransaction → Write
  write_event : String → StoredEvent → Write

pub record EventTables : Type 1 where
  pub transactions : Table StoredTransaction
  pub events : Table StoredEvent

pub record BatchSetting : Type 0 where
  pub parse_time : String → ℕ
  pub now : ℕ
  pub accepts : Write → Bool

abbrev event_write : BatchSetting → EventItem → Write
event_write w item =
    write_event item.event.id (stored_event w.parse_time w.now item.event (details_of item))

-- Every item sends its first statement before any goes on to its second: the transaction of the event
-- where there is one, and else the event.
unfoldable pub first_write : BatchSetting → EventItem → Write
first_write w item = elim (hash_of (details_of item)) [
  | none ↦ event_write w item
  | some hash ↦
      write_transaction hash
        (stored_transaction w.parse_time w.now hash item.event (details_of item))
]

unfoldable pub second_writes : BatchSetting → List EventItem → List Write
second_writes w [] = []
second_writes w (item ∷ items) =
    let rest = second_writes w items in
    elim (hash_of (details_of item)) [ none ↦ rest | some hash ↦ event_write w item ∷ rest ]

unfoldable pub writes_of : BatchSetting → List EventItem → List Write
writes_of w items = map (first_write w) items ++ second_writes w items

module _ (tables : EventTables) where
  pub record EventDatabase : Type 0 where
    pub transactions : tables.transactions.State
    pub events : tables.events.State

  unfoldable pub write : Write → EventDatabase → EventDatabase
  write (write_transaction key row) db = record db {
    transactions = tables.transactions.upsert key (updated_transaction row) row db.transactions;
  }
  write (write_event key row) db = record db { events = put tables.events key row db.events }

  -- The statements in order; none where one is refused, and the transaction is rolled back.
  unfoldable pub run_writes : BatchSetting → List Write → EventDatabase → Option EventDatabase
  run_writes w [] db = some db
  run_writes w (s ∷ ss) db =
      let rest = run_writes w ss (write s db) in if w.accepts s then rest else none

  -- Whether the batch was stored, so that its projections follow.
  unfoldable pub store_batch_of_events :
      BatchSetting → Bool → List EventItem → EventDatabase → EventDatabase × Bool
  store_batch_of_events w connected items db =
      if connected
      then elim items [
        | [] ↦ (db, false)
        | i ∷ more ↦ elim (run_writes w (writes_of w (i ∷ more)) db) [
          | none ↦ (db, false)
          | some after ↦ (after, true)
        ]
      ]
      else (db, false)
