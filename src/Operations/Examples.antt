-- ===== src/Operations/Examples.antt =====
-- Operations of a transaction, and the theorems at them.
use Prim.Native.String.{String}
use attest_so.Prelude.{
  ◌≡◌, refl, ◌⊎◌, true, false, not, ◌||◌, List, [], ◌∷◌, map, Option, none, some, filter, length,
  All, Has,
}
use attest_so.Storage.{Table}
use attest_so.Storage.Puts.{last_of}
use attest_so.Storage.Rows.{rows_table}
use attest_so.Operations.Types.{Operation, OperationRow}
use attest_so.Operations.Contract.{
  involves, first_where, configured, host_address, in_effects, fallback, determine_contract_id,
}
use attest_so.Operations.Attribution.{Names, determine_contract_id_lem}
use attest_so.Operations.Sharing.{shares, contract_operations-share}
use attest_so.Operations.Rows.{
  records, stored_row_of, process_operations_for_event, store_operations_in_db,
}
use attest_so.Operations.Replay.{
  keyed, stored_rows, process_operations_again, store_operations_in_db_lem,
}
use attest_so.Operations.Fetching.{
  is_failed_op, owner_of, fetch_contract_operations, fetched, fetch_contract_operations_lem,
}

abbrev call : String → Option String → Operation
call id to = record {
  id = id;
  transaction_hash = some "h";
  type_i = some 24;
  type = some "invoke_host_function";
  successful = none;
  transaction_successful = none;
  source_account = some "GA";
  index = none;
  operation_index = none;
  to = to;
  from = none;
  account = none;
  contract_id = none;
  contract_address = none;
  function = none;
  parameters = none;
  details_function = none;
  details_parameters = none;
  host_function = none;
  effects = [];
  amount = none;
  asset = none;
  trustor = none;
  trustee = none;
  json = "{}";
}

abbrev contracts : List String
contracts = "CA" ∷ "CB" ∷ []

abbrev two_calls : List Operation
two_calls = call "1" (some "CB") ∷ call "2" (some "GZ") ∷ []

-- A call that has nothing to do with the contracts is attributed to the first.
goes_to_the_first : determine_contract_id contracts (call "2" (some "GZ")) ≡ some "CA"
unfolding determine_contract_id involves first_where configured host_address in_effects fallback
goes_to_the_first = refl

-- An operation that does not say whether it was successful counts as failed when it is fetched, and
-- as successful when it is stored.
failed_and_successful :
    (is_failed_op (call "1" none) ≡ true)
    × ((stored_row_of contracts none (call "1" none)).successful ≡ true)
unfolding is_failed_op stored_row_of
failed_and_successful = (refl, refl)

abbrev table : Table OperationRow
table = rows_table OperationRow

determine_contract_id_lem_example :
    (c : String) × (determine_contract_id contracts (call "1" (some "CB")) ≡ some c)
    × Has (λ x. x ≡ c) contracts
    × (Names (call "1" (some "CB")) c
        ⊎ ((c ≡ "CA") × All (λ x. involves (call "1" (some "CB")) x ≡ false) contracts))
determine_contract_id_lem_example =
    determine_contract_id_lem "CA" ("CB" ∷ []) (call "1" (some "CB")) refl

contract_operations-share_example : shares contracts contracts two_calls ≡ length two_calls
contract_operations-share_example =
    contract_operations-share "CA" ("CB" ∷ []) two_calls refl ((refl, tt), (tt, tt))

process_operations_again_example :
    let (s₁, n₁) =
      process_operations_for_event table (λ r. true) contracts (records two_calls) [] in
    let (s₂, n₂) =
      process_operations_for_event table (λ r. true) contracts (records two_calls) s₁ in
    (table.find "1" s₂ ≡ table.find "1" s₁) × (n₂ ≡ n₁)
process_operations_again_example =
    process_operations_again table (λ r. true) contracts (records two_calls) "1" []

store_operations_in_db_lem_example :
    let rows = filter (λ r. true) (stored_rows contracts ((none, call "1" none) ∷ [])) in
    let (s', n) =
      store_operations_in_db table (λ r. true) true contracts ((none, call "1" none) ∷ []) [] in
    (table.find "1" s' ≡ last_of "1" (table.find "1" []) (keyed rows)) × (n ≡ length rows)
store_operations_in_db_lem_example =
    store_operations_in_db_lem table (λ r. true) contracts ((none, call "1" none) ∷ []) "1" []

fetch_contract_operations_lem_example :
    let (r, s') =
      fetch_contract_operations table
        (λ r. true)
        true
        (λ c. two_calls)
        (λ h. some "d")
        contracts
        true
        [] in
    let all = fetched (λ c. two_calls) contracts in
    let returned = filter (λ op. true || not (is_failed_op op)) all in
    (r.operations ≡ returned)
    × (r.failed_operations ≡ filter is_failed_op all)
    × (table.find "1" s'
        ≡ last_of "1" (table.find "1" []) (
            keyed (
              filter
                (λ r. true)
                (stored_rows contracts (map (λ op. (owner_of contracts op, op)) returned)))))
fetch_contract_operations_lem_example =
    fetch_contract_operations_lem table (λ r. true) (λ c. two_calls) (λ h. some "d") contracts true
      "1" []
