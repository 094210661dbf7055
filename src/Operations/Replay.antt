-- ===== src/Operations/Replay.antt =====
-- What the table of operations says after operations were stored, once and again.
use Prim.Native.String.{String}
use attest_so.Prelude.{
  ℕ, zero, suc, ◌+◌, ◌≤◌, ◌≡◌, refl, sym, ap, ◌∙◌, inl, inr, Bool, true, false, List, [], ◌∷◌, ◌++◌,
  map, Option, none, some, length, take, drop, take-append-drop, length-drop, filter, ◌==◌, truthy,
  if◌then◌else◌, Bool-cases, Option-cases, arith,
}
use attest_so.Storage.{Table, put}
use attest_so.Storage.Puts.{puts, last_of, find-puts, find-puts_again}
use attest_so.Operations.Types.{Operation, OperationRow}
use attest_so.Operations.Contract.{determine_contract_id}
use attest_so.Operations.Rows.{
  HorizonReply, fetch_operations_for_transaction, row_of, stored_row_of, upsert_operation,
  process_loop, process_operations_for_event, store_batch, store_batches, store_operations_in_db,
}

abbrev pub keyed : List OperationRow → List (String × OperationRow)
keyed rows = map (λ r. (r.operation_id, r)) rows

-- The rows of the operations that are attributed to a contract.
abbrev pub attributed : List String → List Operation → List OperationRow
attributed ids [] = []
attributed ids (op ∷ ops) =
    let rest = attributed ids ops in
    elim (determine_contract_id ids op) [
      | none ↦ rest
      | some c ↦ if truthy c then row_of c op ∷ rest else rest
    ]

abbrev pub stored_rows : List String → List (Option String × Operation) → List OperationRow
stored_rows ids ops = map (λ o. stored_row_of ids o.0 o.1) ops

module _ (table : Table OperationRow) (accepts : OperationRow → Bool) where
  -- The rows that are accepted are written, and counted.
  abbrev Written : List OperationRow → table.State × ℕ → table.State × ℕ
  Written rows (s, n) =
      (puts table (keyed (filter accepts rows)) s, n + length (filter accepts rows))

  written_cons :
      (row : OperationRow) (rows : List OperationRow) (after : table.State × ℕ)
      → Written rows (upsert_operation table accepts row after) ≡ Written (row ∷ rows) after
  unfolding puts
  written_cons row rows (s, n) = elim (Bool-cases (accepts row)) [
    | inr refused ↦ rw refused refl
    | inl taken ↦ rw taken (
        ap (λ k. (puts table (keyed (filter accepts rows)) (put table row.operation_id row s), k))
          (omega arith))
  ]

  written_nil : (after : table.State × ℕ) → after ≡ Written [] after
  unfolding puts
  written_nil (s, n) = ap (λ k. (s, k)) (omega arith)

  process_loop-Written :
      (ids : List String) (ops : List Operation) (after : table.State × ℕ)
      → process_loop table accepts ids ops after ≡ Written (attributed ids ops) after
  unfolding process_loop
  process_loop-Written ids [] after = written_nil after
  process_loop-Written ids (op ∷ ops) after = elim (Option-cases (determine_contract_id ids op)) [
    | inl nowhere ↦ rw (nowhere, attributed) (process_loop-Written ids ops after)
    | inr (c, found) ↦ elim (Bool-cases (truthy c)) [
      | inr unnamed ↦ rw (found, attributed, unnamed) (process_loop-Written ids ops after)
      | inl named ↦
          rw (found, attributed, named)
            (process_loop-Written ids ops (upsert_operation table accepts (row_of c op) after)
              ∙ written_cons (row_of c op) (attributed ids ops) after)
    ]
  ]

  store_batch-Written :
      (ids : List String) (ops : List (Option String × Operation)) (after : table.State × ℕ)
      → store_batch table accepts ids ops after ≡ Written (stored_rows ids ops) after
  unfolding store_batch
  store_batch-Written ids [] after = written_nil after
  store_batch-Written ids ((given, op) ∷ ops) after =
      store_batch-Written ids ops
        (upsert_operation table accepts (stored_row_of ids given op) after)
      ∙ written_cons (stored_row_of ids given op) (stored_rows ids ops) after

  store_batch-append :
      (ids : List String) (xs ys : List (Option String × Operation)) (after : table.State × ℕ)
      → store_batch table accepts ids (xs ++ ys) after
        ≡ store_batch table accepts ids ys (store_batch table accepts ids xs after)
  unfolding store_batch
  store_batch-append ids [] ys after = refl
  store_batch-append ids ((given, op) ∷ xs) ys after =
      store_batch-append ids xs ys
        (upsert_operation table accepts (stored_row_of ids given op) after)

  -- The batches store what one loop over all operations would.
  store_batches-store_batch :
      (fuel : ℕ) (ids : List String) (ops : List (Option String × Operation))
      (after : table.State × ℕ)
      → length ops ≤ fuel
      → store_batches table accepts fuel ids ops after ≡ store_batch table accepts ids ops after
  unfolding store_batches store_batch
  store_batches-store_batch zero ids [] after enough = refl
  store_batches-store_batch zero ids (op ∷ ops) after enough = absurd (omega arith)
  store_batches-store_batch (suc fuel) ids [] after enough = refl
  store_batches-store_batch (suc fuel) ids (op ∷ ops) after enough =
      store_batches-store_batch fuel ids (drop 100 (op ∷ ops))
        (store_batch table accepts ids (take 100 (op ∷ ops)) after)
        (omega (arith, length-drop 100 (op ∷ ops)))
      ∙ sym (store_batch-append ids (take 100 (op ∷ ops)) (drop 100 (op ∷ ops)) after)
      ∙ ap (λ xs. store_batch table accepts ids xs after) (take-append-drop 100 (op ∷ ops))

-- The operations of a transaction can be processed again, as they are for every event of it: the
-- second time, each row stays what it was, and as many operations are counted as before.
pub process_operations_again :
    (table : Table OperationRow) (accepts : OperationRow → Bool) (ids : List String)
    (reply : HorizonReply) (key : String) (s : table.State)
    → let (s₁, n₁) = process_operations_for_event table accepts ids reply s in
      let (s₂, n₂) = process_operations_for_event table accepts ids reply s₁ in
      (table.find key s₂ ≡ table.find key s₁) × (n₂ ≡ n₁)
unfolding process_operations_for_event
process_operations_again table accepts ids reply key s =
    let ops = fetch_operations_for_transaction reply in
    let rows = keyed (filter accepts (attributed ids ops)) in
    let first = process_loop-Written table accepts ids ops (s, 0) in
    let s₁ = (process_loop table accepts ids ops (s, 0)).0 in
    let second = process_loop-Written table accepts ids ops (s₁, 0) in
    (
      ap (λ t. table.find key t.0) second
          ∙ ap (λ t. table.find key (puts table rows t.0)) first
          ∙ find-puts_again table key rows s
          ∙ sym (ap (λ t. table.find key t.0) first),
      ap (λ t. t.1) second ∙ sym (ap (λ t. t.1) first),
    )

-- What `storeOperationsInDB` leaves of an operation is the last accepted row for it, or what was
-- there; the result is the number of the accepted rows. The batches of 100 make no difference.
pub store_operations_in_db_lem :
    (table : Table OperationRow) (accepts : OperationRow → Bool) (ids : List String)
    (ops : List (Option String × Operation)) (key : String) (s : table.State)
    → let rows = filter accepts (stored_rows ids ops) in
      let (s', n) = store_operations_in_db table accepts true ids ops s in
      (table.find key s' ≡ last_of key (table.find key s) (keyed rows)) × (n ≡ length rows)
unfolding store_operations_in_db
store_operations_in_db_lem table accepts ids [] key s = (unfold puts in refl, refl)
store_operations_in_db_lem table accepts ids (op ∷ ops) key s =
    let some_ops : (length (op ∷ ops) == 0) ≡ false = ground arith in
    let rows = filter accepts (stored_rows ids (op ∷ ops)) in
    let stored =
      store_batches-store_batch table accepts (length (op ∷ ops)) ids (op ∷ ops) (s, 0)
        (omega arith)
      ∙ store_batch-Written table accepts ids (op ∷ ops) (s, 0) in
    rw some_ops (
      ap (λ t. table.find key t.0) stored ∙ find-puts table key (keyed rows) s,
      ap (λ t. t.1) stored ∙ omega arith,
    )
