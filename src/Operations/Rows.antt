-- ===== src/Operations/Rows.antt =====
-- apps/horizon/src/repository/backfill.repository.ts: `fetchOperationsForTransaction` and
-- `processOperationsForEvent`; operations.repository.ts: `storeOperationsInDB`. Whether the database
-- accepts a row is given.
use Prim.Native.String.{String}
use attest_so.Prelude.{
  ◌or_text◌, ℕ, zero, suc, ◌+◌, Bool, true, not, ◌&&◌, ◌||◌, List, [], ◌∷◌, Option, none, some,
  length, take, drop, ◌==◌, ◌or_else◌, text_or, truthy, includes, decimal, if◌then◌else◌,
}
use attest_so.Storage.{Table, put}
use attest_so.Operations.Types.{Operation, OperationRow, whole}
use attest_so.Operations.Contract.{
  equals, first_where, determine_contract_id, extract_function_name, extract_parameters,
}

-- The answer of Horizon: the records of a page, an HTTP status that is no success, or none.
pub data HorizonReply : Type 0 where
  records : List Operation → HorizonReply
  http_status : ℕ → HorizonReply
  no_reply : HorizonReply

-- A failed fetch counts as no operations.
unfoldable pub fetch_operations_for_transaction : HorizonReply → List Operation
fetch_operations_for_transaction (records ops) = ops
fetch_operations_for_transaction (http_status n) = []
fetch_operations_for_transaction no_reply = []

-- `flag !== false`
abbrev is_not_false : Option Bool → Bool
is_not_false o = o or_else true

unfoldable pub row_of : String → Operation → OperationRow
row_of c op = record {
  operation_id = op.id;
  transaction_hash = op.transaction_hash;
  contract_id = c;
  operation_type = elim op.type_i [ none ↦ "unknown" | some t ↦ decimal t ];
  successful = is_not_false op.successful;
  source_account = text_or op.source_account "";
  operation_index = op.index or_else 0;
  function = extract_function_name op;
  parameters = extract_parameters op;
  details = record { operation = op.json; contract_id = none };
}

-- `operation._contractId || contractIds.find(…) || contractIds[0] || ''`
abbrev concerns : Operation → String → Bool
concerns op c =
    equals op.contract_id c
    || equals op.source_account c
    || equals op.account c
    || includes op.json c

abbrev head_or_empty : List String → String
head_or_empty [] = ""
head_or_empty (c ∷ cs) = c

unfoldable pub target_contract_id : List String → Option String → Operation → String
target_contract_id ids given op =
    text_or (given or_text first_where (concerns op) ids) (head_or_empty ids)

unfoldable pub stored_row_of : List String → Option String → Operation → OperationRow
stored_row_of ids given op = record {
  operation_id = op.id;
  transaction_hash = op.transaction_hash;
  contract_id = target_contract_id ids given op;
  operation_type = text_or op.type "invoke_host_function";
  successful = is_not_false op.successful && is_not_false op.transaction_successful;
  source_account = text_or op.source_account "";
  operation_index = op.operation_index or_else 0;
  details = record { operation = op.json; contract_id = given };
  function = op.function or_text none;
  parameters = elim op.parameters [ none ↦ none | some text ↦ some (whole text) ];
}

module _ (table : Table OperationRow) (accepts : OperationRow → Bool) where
  abbrev pub upsert_operation : OperationRow → table.State × ℕ → table.State × ℕ
  upsert_operation row (s, n) =
      if accepts row then (put table row.operation_id row s, n + 1) else (s, n)

  unfoldable pub process_loop : List String → List Operation → table.State × ℕ → table.State × ℕ
  process_loop ids [] after = after
  process_loop ids (op ∷ ops) after = process_loop ids ops (elim (determine_contract_id ids op) [
    | none ↦ after
    | some c ↦ if truthy c then upsert_operation (row_of c op) after else after
  ])

  -- The tables afterwards, and the number of operations stored.
  unfoldable pub process_operations_for_event :
      List String → HorizonReply → table.State → table.State × ℕ
  process_operations_for_event ids reply s =
      process_loop ids (fetch_operations_for_transaction reply) (s, 0)

  unfoldable pub store_batch :
      List String → List (Option String × Operation) → table.State × ℕ → table.State × ℕ
  store_batch ids [] after = after
  store_batch ids ((given, op) ∷ ops) after =
      store_batch ids ops (upsert_operation (stored_row_of ids given op) after)

  -- The loop over batches of 100; the fuel is the number of operations.
  unfoldable pub store_batches :
      ℕ → List String → List (Option String × Operation) → table.State × ℕ → table.State × ℕ
  store_batches zero ids ops after = after
  store_batches (suc fuel) ids [] after = after
  store_batches (suc fuel) ids (op ∷ ops) after =
      store_batches fuel ids (drop 100 (op ∷ ops)) (store_batch ids (take 100 (op ∷ ops)) after)

  unfoldable pub store_operations_in_db :
      Bool → List String → List (Option String × Operation) → table.State → table.State × ℕ
  store_operations_in_db connected ids ops s =
      if connected && not (length ops == 0)
      then store_batches (length ops) ids ops (s, 0)
      else (s, 0)
