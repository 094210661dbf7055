-- ===== src/Batches/References.antt =====
-- The references from stored events to stored transactions.
use Prim.Native.String.{String}
use mathlib.Core.Option.{some_inj}
use attest_so.Prelude.{
  ◌≡◌, refl, sym, ap, subst, All-imp, ◌∙◌, inl, inr, Bool, true, false, List, [], ◌∷◌, ◌++◌, some,
  map, ◌is◌, Bool-cases, Option-cases, All,
}
use attest_so.Storage.{find-put, find-upserted}
use attest_so.Batches.Types.{EventItem, StoredTransaction, StoredEvent}
use attest_so.Batches.Rows.{details_of, hash_of, reference_of, updated_transaction, stored_event}
use attest_so.Batches.Events.{
  Write, write_transaction, write_event, EventTables, BatchSetting, first_write, second_writes,
  writes_of, EventDatabase, write, run_writes, store_batch_of_events,
}

-- Where the details have a hash, the event refers to the one that the transaction is stored under.
abbrev IsConsistent : EventItem → Type 0
IsConsistent item =
    (h : String)
    → hash_of (details_of item) ≡ some h
    → reference_of item.event (details_of item) ≡ some h

module _ (tables : EventTables) where
  abbrev IsStored : EventDatabase tables → String → Type 0
  IsStored db h = (t : StoredTransaction) × (tables.transactions.find h db.transactions ≡ some t)

  -- The transactions that stored events refer to are stored.
  abbrev pub RefersToStored : EventDatabase tables → Type 0
  RefersToStored db =
      (key : String) (row : StoredEvent) (h : String)
      → tables.events.find key db.events ≡ some row
      → row.tx_hash ≡ some h
      → IsStored db h

  -- What the database has to hold before a statement.
  abbrev IsReady : EventDatabase tables → Write → Type 0
  IsReady db (write_transaction key row) = Unit
  IsReady db (write_event key row) = (h : String) → row.tx_hash ≡ some h → IsStored db h

  write-IsStored :
      (s : Write) (db : EventDatabase tables) (h : String)
      → IsStored db h
      → IsStored (write tables s db) h
  unfolding write
  write-IsStored (write_event key row) db h stored = stored
  write-IsStored (write_transaction key row) db h (t, found) =
      let here =
        find-upserted tables.transactions h key (updated_transaction row) row db.transactions in
      elim (Bool-cases (key is h)) [
        | inl same ↦ (_, rw same at here)
        | inr other ↦ (t, here ∙ rw (other, found) refl)
      ]

  write-IsReady :
      (s : Write) (db : EventDatabase tables) (t : Write)
      → IsReady db t
      → IsReady (write tables s db) t
  write-IsReady s db (write_transaction key row) ready = tt
  write-IsReady s db (write_event key row) ready = λ h e. write-IsStored s db h (ready h e)

  write-RefersToStored :
      (s : Write) (db : EventDatabase tables)
      → IsReady db s
      → RefersToStored db
      → RefersToStored (write tables s db)
  unfolding write
  write-RefersToStored (write_transaction k row) db ready refers =
      λ key r h found e. write-IsStored (write_transaction k row) db h (refers key r h found e)
  write-RefersToStored (write_event k row) db ready refers = λ key r h found e.
      let here = sym (find-put tables.events key k row db.events) ∙ found in
      elim (Bool-cases (k is key)) [
        | inl same ↦ ready h (ap (λ x. x.tx_hash) (some_inj.0 (rw same at here)) ∙ e)
        | inr other ↦ refers key r h (rw other at here) e
      ]

  run_writes-RefersToStored :
      (w : BatchSetting) (ss : List Write) (db after : EventDatabase tables)
      → All (IsReady db) ss
      → run_writes tables w ss db ≡ some after
      → RefersToStored db
      → RefersToStored after
  unfolding run_writes
  run_writes-RefersToStored w [] db after ready h refers =
      subst RefersToStored (some_inj.0 h) refers
  run_writes-RefersToStored w (s ∷ ss) db after (now, later) h refers =
      elim (Bool-cases (w.accepts s)) [
        | inr refused ↦ absurd (cc (rw refused at h))
        | inl accepted ↦
            run_writes-RefersToStored w ss (write tables s db) after
              (All-imp (IsReady db) (IsReady (write tables s db)) (write-IsReady s db) ss later)
              (rw accepted at h) (write-RefersToStored s db now refers)
      ]

  -- The first statements refer to nothing.
  first_write-IsReady :
      (w : BatchSetting) (db : EventDatabase tables) (item : EventItem)
      → IsReady db (first_write w item)
  unfolding first_write stored_event
  first_write-IsReady w db item = elim (Option-cases (hash_of (details_of item))) [
    | inl nothing ↦ rw (nothing, first_write) (λ h e. absurd (cc (rw (nothing, stored_event) at e)))
    | inr (hash, found) ↦ rw (found, first_write) tt
  ]

  first_writes-IsReady :
      (w : BatchSetting) (db : EventDatabase tables) (items : List EventItem)
      → All (IsReady db) (map (first_write w) items)
  first_writes-IsReady w db [] = tt
  first_writes-IsReady w db (item ∷ items) =
      (first_write-IsReady w db item, first_writes-IsReady w db items)

  run_writes-IsStored :
      (w : BatchSetting) (ss : List Write) (db after : EventDatabase tables) (h : String)
      → run_writes tables w ss db ≡ some after
      → IsStored db h
      → IsStored after h
  unfolding run_writes
  run_writes-IsStored w [] db after h ran stored = subst (λ d. IsStored d h) (some_inj.0 ran) stored
  run_writes-IsStored w (s ∷ ss) db after h ran stored = elim (Bool-cases (w.accepts s)) [
    | inr refused ↦ absurd (cc (rw refused at ran))
    | inl accepted ↦
        run_writes-IsStored w ss (write tables s db) after h (rw accepted at ran)
          (write-IsStored s db h stored)
  ]

  run_writes-append :
      (w : BatchSetting) (ss ts : List Write) (db after : EventDatabase tables)
      → run_writes tables w (ss ++ ts) db ≡ some after
      → (mid : EventDatabase tables) × (run_writes tables w ss db ≡ some mid)
        × (run_writes tables w ts mid ≡ some after)
  unfolding run_writes
  run_writes-append w [] ts db after ran = (db, refl, ran)
  run_writes-append w (s ∷ ss) ts db after ran = elim (Bool-cases (w.accepts s)) [
    | inr refused ↦ absurd (cc (rw refused at ran))
    | inl accepted ↦
        let (mid, left, right) =
          run_writes-append w ss ts (write tables s db) after (rw accepted at ran) in
        (mid, rw (accepted, run_writes) left, right)
  ]

  -- The transaction of an item, once the first statements have run.
  abbrev HasTransaction : EventDatabase tables → EventItem → Type 0
  HasTransaction db item = (h : String) → hash_of (details_of item) ≡ some h → IsStored db h

  write_transaction-IsStored :
      (key : String) (row : StoredTransaction) (db : EventDatabase tables)
      → IsStored (write tables (write_transaction key row) db) key
  unfolding write
  write_transaction-IsStored key row db =
      (_, tables.transactions.find-upsert key (updated_transaction row) row db.transactions)

  first_write-HasTransaction :
      (w : BatchSetting) (db : EventDatabase tables) (item : EventItem)
      → HasTransaction (write tables (first_write w item) db) item
  unfolding first_write
  first_write-HasTransaction w db item h found =
      rw (found, first_write) (write_transaction-IsStored h _ db)

  first_writes-HasTransaction :
      (w : BatchSetting) (items : List EventItem) (db mid : EventDatabase tables)
      → run_writes tables w (map (first_write w) items) db ≡ some mid
      → All (HasTransaction mid) items
  unfolding run_writes
  first_writes-HasTransaction w [] db mid ran = tt
  first_writes-HasTransaction w (item ∷ items) db mid ran =
      let s = first_write w item in
      elim (Bool-cases (w.accepts s)) [
        | inr refused ↦ absurd (cc (rw refused at ran))
        | inl accepted ↦
            let rest = rw accepted at ran in
            (
              λ h found.
                  run_writes-IsStored w (map (first_write w) items) (write tables s db) mid h rest
                    (first_write-HasTransaction w db item h found),
              first_writes-HasTransaction w items (write tables s db) mid rest,
            )
      ]

  second_writes-IsReady :
      (w : BatchSetting) (db : EventDatabase tables) (items : List EventItem)
      → All IsConsistent items
      → All (HasTransaction db) items
      → All (IsReady db) (second_writes w items)
  unfolding second_writes stored_event
  second_writes-IsReady w db [] consistent stored = tt
  second_writes-IsReady w db (item ∷ items) (right, consistent) (has, stored) =
      let rest = second_writes-IsReady w db items consistent stored in
      elim (Option-cases (hash_of (details_of item))) [
        | inl nothing ↦ rw (nothing, second_writes) rest
        | inr (hash, found) ↦
            rw (found, second_writes)
              (
                (λ h e. has h (found ∙ sym (right hash found) ∙ rw (found, stored_event) at e)),
                rest,
              )
      ]

-- A batch keeps the references of events. If in every item whose details have a hash the event is to
-- refer to the hash that the transaction is stored under, and every transaction that a stored event
-- refers to is stored, then that is so after the batch, whether the database takes it or rolls it back.
pub store_batch-RefersToStored :
    (tables : EventTables) (w : BatchSetting) (connected : Bool) (items : List EventItem)
    (db : EventDatabase tables)
    → All IsConsistent items
    → RefersToStored tables db
    → RefersToStored tables (store_batch_of_events tables w connected items db).0
unfolding store_batch_of_events writes_of
store_batch-RefersToStored tables w false items db consistent refers = refers
store_batch-RefersToStored tables w true [] db consistent refers = refers
store_batch-RefersToStored tables w true (i ∷ more) db consistent refers =
    elim (Option-cases (run_writes tables w (writes_of w (i ∷ more)) db)) [
      | inl rolled ↦ rw (rolled, store_batch_of_events) refers
      | inr (after, ran) ↦
          let firsts = map (first_write w) (i ∷ more) in
          let (mid, one, two) = run_writes-append tables w firsts _ db after ran in
          rw (ran, store_batch_of_events)
            (run_writes-RefersToStored tables w (second_writes w (i ∷ more)) mid after
              (second_writes-IsReady tables w mid (i ∷ more) consistent
                (first_writes-HasTransaction tables w (i ∷ more) db mid one))
              two
              (run_writes-RefersToStored tables w firsts db mid
                (first_writes-IsReady tables w db (i ∷ more)) one refers))
    ]
