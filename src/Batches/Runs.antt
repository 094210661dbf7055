-- ===== src/Batches/Runs.antt =====
-- What `storeTransactionsInDB` leaves in the table.
use Prim.Native.String.{String}
use attest_so.Prelude.{
  ℕ, zero, suc, ◌+◌, ◌≤◌, ◌≡◌, refl, sym, ap, ◌∙◌, inl, inr, true, false, List, [], ◌∷◌, ◌++◌, map,
  none, some, ◌==◌, length, take, drop, length-drop, take-append-drop, if◌then◌else◌, Bool-cases,
  Option-cases, arith,
}
use attest_so.Storage.{Table}
use attest_so.Storage.Upserts.{Upsert, row_after, upserts, find-upserts}
use attest_so.Batches.Types.{StoredTransaction}
use attest_so.Batches.Transactions.{
  TransactionData, TransactionSetting, key_of, incoming, updated_incoming, upsert_incoming,
  transactions_loop, transaction_batches, store_transactions_in_db,
}

-- The rows that the database accepts.
unfoldable pub accepted_rows : TransactionSetting → List TransactionData → List StoredTransaction
accepted_rows w [] = []
accepted_rows w (t ∷ ts) =
    let rest = accepted_rows w ts in
    elim (key_of t) [
      | none ↦ rest
      | some hash ↦
          let row = incoming w.parse_date w.now hash t in if w.accepts row then row ∷ rest else rest
    ]

abbrev pub upsert_of : StoredTransaction → Upsert StoredTransaction
upsert_of row = record { key = row.hash; update = updated_incoming row; create = row }

module _ (table : Table StoredTransaction) (w : TransactionSetting) where
  -- The state and the count after rows.
  abbrev after_rows : List StoredTransaction → table.State × ℕ → table.State × ℕ
  after_rows rows (s, count) = (upserts table (map upsert_of rows) s, count + length rows)

  loop-rows :
      (ts : List TransactionData) (s : table.State) (count : ℕ)
      → transactions_loop table w ts (s, count) ≡ after_rows (accepted_rows w ts) (s, count)
  unfolding transactions_loop accepted_rows upserts upsert_incoming
  loop-rows [] s count = ap (λ n. (s, n)) (omega arith)
  loop-rows (t ∷ ts) s count = elim (Option-cases (key_of t)) [
    | inl nothing ↦ rw (nothing, transactions_loop, accepted_rows) (loop-rows ts s count)
    | inr (hash, found) ↦
        let row = incoming w.parse_date w.now hash t in
        elim (Bool-cases (w.accepts row)) [
          | inr refused ↦
              rw (found, transactions_loop, accepted_rows, refused, upsert_incoming)
                (loop-rows ts s count)
          | inl accepted ↦
              let s' = table.upsert row.hash (updated_incoming row) row s in
              rw (found, transactions_loop, accepted_rows, accepted, upsert_incoming)
                (loop-rows ts s' (count + 1)
                  ∙ ap (λ n. (upserts table (map upsert_of (accepted_rows w ts)) s', n))
                      (omega arith))
        ]
  ]

  loop-append :
      (xs ys : List TransactionData) (after : table.State × ℕ)
      → transactions_loop table w (xs ++ ys) after
        ≡ transactions_loop table w ys (transactions_loop table w xs after)
  unfolding transactions_loop
  loop-append [] ys after = refl
  loop-append (t ∷ xs) ys after = elim (Option-cases (key_of t)) [
    | inl nothing ↦ rw (nothing, transactions_loop) (loop-append xs ys after)
    | inr (hash, found) ↦ rw (found, transactions_loop) (loop-append xs ys _)
  ]

  -- The batches do what one loop over all transactions does.
  batches-loop :
      (fuel : ℕ) (ts : List TransactionData) (after : table.State × ℕ)
      → length ts ≤ fuel
      → transaction_batches table w fuel ts after ≡ transactions_loop table w ts after
  unfolding transaction_batches transactions_loop
  batches-loop zero [] after enough = refl
  batches-loop zero (t ∷ ts) after enough = absurd (omega arith)
  batches-loop (suc fuel) [] after enough = refl
  batches-loop (suc fuel) (t ∷ ts) after enough =
      batches-loop fuel (drop 100 (t ∷ ts)) (transactions_loop table w (take 100 (t ∷ ts)) after)
        (omega (arith, length-drop 100 (t ∷ ts)))
      ∙ sym (loop-append (take 100 (t ∷ ts)) (drop 100 (t ∷ ts)) after)
      ∙ ap (λ xs. transactions_loop table w xs after) (take-append-drop 100 (t ∷ ts))

-- What `storeTransactionsInDB` leaves of a transaction is what was there before, after one update for
-- each accepted row with its hash, in order, the first of which creates it where there was none; the
-- result is the number of accepted rows. The batches of 100 make no difference, and neither do rows
-- without a hash or refused ones.
pub store_transactions_in_db_lem :
    (table : Table StoredTransaction) (w : TransactionSetting) (ts : List TransactionData)
    (key : String) (s : table.State)
    → let rows = accepted_rows w ts in
      let (s', n) = store_transactions_in_db table w true ts s in
      (table.find key s' ≡ row_after key (table.find key s) (map upsert_of rows))
      × (n ≡ length rows)
unfolding store_transactions_in_db accepted_rows
store_transactions_in_db_lem table w [] key s = (refl, refl)
store_transactions_in_db_lem table w (t ∷ ts) key s =
    let some_rows : (length (t ∷ ts) == 0) ≡ false = ground arith in
    let rows = accepted_rows w (t ∷ ts) in
    let stored =
      batches-loop table w (length (t ∷ ts)) (t ∷ ts) (s, 0) (omega arith)
      ∙ loop-rows table w (t ∷ ts) s 0 in
    rw some_rows (
      ap (λ r. table.find key r.0) stored ∙ find-upserts table key (map upsert_of rows) s,
      ap (λ r. r.1) stored ∙ omega arith,
    )
