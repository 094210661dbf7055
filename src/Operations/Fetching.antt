-- ===== src/Operations/Fetching.antt =====
-- apps/horizon/src/repository/operations.repository.ts: `fetchContractOperations`. The operations that
-- Horizon returns for an account, and the details of a transaction, are given.
use Prim.Native.String.{String}
use attest_so.Prelude.{
  ◌or_text◌, ℕ, ◌≡◌, refl, sym, ap, ◌∙◌, inl, inr, Bool, true, false, not, ◌||◌, List, [], ◌∷◌,
  ◌++◌, append_assoc, append-nil, map, Option, none, some, filter, length, any, ◌or_else◌, ◌is◌,
  truthy, includes, if◌then◌else◌, Bool-cases,
}
use attest_so.Storage.{Table}
use attest_so.Storage.Puts.{last_of}
use attest_so.Operations.Types.{Operation, OperationRow}
use attest_so.Operations.Contract.{equals, first_where}
use attest_so.Operations.Rows.{store_operations_in_db}
use attest_so.Operations.Replay.{keyed, stored_rows, store_operations_in_db_lem}

-- `Set.add`
abbrev pub add : String → List String → List String
add x xs = if any (λ y. y is x) xs then xs else xs ++ x ∷ []

-- The values of `[...new Set(xs.filter(Boolean))]`, onto those before.
unfoldable pub unique_onto : List String → List (Option String) → List String
unique_onto seen [] = seen
unique_onto seen (none ∷ xs) = unique_onto seen xs
unique_onto seen (some x ∷ xs) = unique_onto (if truthy x then add x seen else seen) xs

pub record Gathered : Type 0 where
  pub operations : List Operation
  pub accounts : List String
  pub failed_operations : List Operation

-- `!op.successful || op.transaction_successful === false`
unfoldable pub is_failed_op : Operation → Bool
is_failed_op op = not (op.successful or_else false) || not (op.transaction_successful or_else true)

abbrev with_account : Operation → List String → List String
with_account op seen = elim op.source_account [
  | none ↦ seen
  | some a ↦ if truthy a then add a seen else seen
]

unfoldable pub gather_op : Bool → Operation → Gathered → Gathered
gather_op include_failed op g =
    let accounts = with_account op g.accounts in
    if is_failed_op op
    then record {
      operations = if include_failed then g.operations ++ op ∷ [] else g.operations;
      accounts = accounts;
      failed_operations = g.failed_operations ++ op ∷ [];
    }
    else record {
      operations = g.operations ++ op ∷ [];
      accounts = accounts;
      failed_operations = g.failed_operations;
    }

unfoldable pub gather_ops : Bool → List Operation → Gathered → Gathered
gather_ops include_failed [] g = g
gather_ops include_failed (op ∷ ops) g =
    gather_ops include_failed ops (gather_op include_failed op g)

unfoldable pub gather_contracts :
    (String → List Operation) → Bool → List String → Gathered → Gathered
gather_contracts fetch include_failed [] g = g
gather_contracts fetch include_failed (c ∷ cs) g =
    gather_contracts fetch include_failed cs (gather_ops include_failed (fetch c) g)

abbrev pub head : List String → Option String
head [] = none
head (c ∷ cs) = some c

-- `_contractId`: the first contract that is the operation's source or account or stands in its JSON
-- text, and the first contract where there is none.
unfoldable pub owner_of : List String → Operation → Option String
owner_of ids op =
    first_where (λ c. equals op.source_account c || equals op.account c || includes op.json c) ids
    or_text head ids

-- The details of the transactions that could be fetched.
unfoldable pub details_of : (String → Option String) → List String → List String
details_of get [] = []
details_of get (h ∷ hs) =
    let rest = details_of get hs in elim (get h) [ none ↦ rest | some d ↦ d ∷ rest ]

pub record ContractOperations : Type 0 where
  pub operations : List Operation
  pub transactions : List String
  pub accounts : List String
  pub failed_operations : List Operation
  pub operations_fetched : ℕ
  pub transactions_fetched : ℕ

abbrev none_gathered : Gathered
none_gathered = record { operations = []; accounts = []; failed_operations = [] }

-- The result, the transactions that were handed to `storeTransactionsInDB`, and the table of operations.
unfoldable pub fetch_contract_operations :
    (table : Table OperationRow)
    → (OperationRow → Bool)
    → Bool
    → (String → List Operation)
    → (String → Option String)
    → List String
    → Bool
    → table.State
    → ContractOperations × table.State
fetch_contract_operations table accepts connected fetch get ids include_failed s =
    let g = gather_contracts fetch include_failed ids none_gathered in
    let details = details_of get (unique_onto [] (map (λ op. op.transaction_hash) g.operations)) in
    (
      record {
        operations = g.operations;
        transactions = details;
        accounts = g.accounts;
        failed_operations = g.failed_operations;
        operations_fetched = length g.operations;
        transactions_fetched = length details;
      },
      (store_operations_in_db table accepts connected ids
          (map (λ op. (owner_of ids op, op)) g.operations) s).0,
    )

-- All operations that were fetched, in order.
abbrev pub fetched : (String → List Operation) → List String → List Operation
fetched fetch [] = []
fetched fetch (c ∷ cs) = fetch c ++ fetched fetch cs

abbrev pub wanted : Bool → Operation → Bool
wanted include_failed op = include_failed || not (is_failed_op op)

filter-append :
    (p : Operation → Bool) (xs ys : List Operation)
    → filter p (xs ++ ys) ≡ filter p xs ++ filter p ys
filter-append p [] ys = refl
filter-append p (x ∷ xs) ys = elim (Bool-cases (p x)) [
  | inl hit ↦ rw hit (ap (λ r. x ∷ r) (filter-append p xs ys))
  | inr miss ↦ rw miss (filter-append p xs ys)
]

-- What is gathered of a list of operations.
abbrev Gathers : Bool → Gathered → List Operation → Gathered → Type 0
Gathers include_failed g ops g' =
    (g'.operations ≡ g.operations ++ filter (wanted include_failed) ops)
    × (g'.failed_operations ≡ g.failed_operations ++ filter is_failed_op ops)

Gathers-both :
    (include_failed : Bool) (xs ys : List Operation) (g g' g'' : Gathered)
    → Gathers include_failed g xs g'
    → Gathers include_failed g' ys g''
    → Gathers include_failed g (xs ++ ys) g''
Gathers-both include_failed xs ys g g' g'' (h, h') (k, k') = (
  k
      ∙ ap (λ r. r ++ filter (wanted include_failed) ys) h
      ∙ append_assoc g.operations (filter (wanted include_failed) xs) _
      ∙ ap (λ r. g.operations ++ r) (sym (filter-append (wanted include_failed) xs ys)),
  k'
      ∙ ap (λ r. r ++ filter is_failed_op ys) h'
      ∙ append_assoc g.failed_operations (filter is_failed_op xs) _
      ∙ ap (λ r. g.failed_operations ++ r) (sym (filter-append is_failed_op xs ys)),
)

gather_op-Gathers :
    (include_failed : Bool) (op : Operation) (g : Gathered)
    → Gathers include_failed g (op ∷ []) (gather_op include_failed op g)
unfolding gather_op
gather_op-Gathers true op g = elim (Bool-cases (is_failed_op op)) [
  | inl failed ↦ rw failed (refl, refl)
  | inr fine ↦ rw fine (refl, sym (append-nil g.failed_operations))
]
gather_op-Gathers false op g = elim (Bool-cases (is_failed_op op)) [
  | inl failed ↦ rw failed (sym (append-nil g.operations), refl)
  | inr fine ↦ rw fine (refl, sym (append-nil g.failed_operations))
]

gather_ops-Gathers :
    (include_failed : Bool) (ops : List Operation) (g : Gathered)
    → Gathers include_failed g ops (gather_ops include_failed ops g)
unfolding gather_ops
gather_ops-Gathers include_failed [] g =
    (sym (append-nil g.operations), sym (append-nil g.failed_operations))
gather_ops-Gathers include_failed (op ∷ ops) g =
    Gathers-both include_failed (op ∷ []) ops g (gather_op include_failed op g)
      (gather_ops include_failed ops (gather_op include_failed op g))
      (gather_op-Gathers include_failed op g)
      (gather_ops-Gathers include_failed ops (gather_op include_failed op g))

gather_contracts-Gathers :
    (fetch : String → List Operation) (include_failed : Bool) (ids : List String) (g : Gathered)
    → Gathers include_failed g (fetched fetch ids) (gather_contracts fetch include_failed ids g)
unfolding gather_contracts
gather_contracts-Gathers fetch include_failed [] g =
    (sym (append-nil g.operations), sym (append-nil g.failed_operations))
gather_contracts-Gathers fetch include_failed (c ∷ cs) g =
    Gathers-both include_failed (fetch c) (fetched fetch cs) g
      (gather_ops include_failed (fetch c) g)
      (gather_contracts fetch include_failed cs (gather_ops include_failed (fetch c) g))
      (gather_ops-Gathers include_failed (fetch c) g)
      (gather_contracts-Gathers fetch include_failed cs (gather_ops include_failed (fetch c) g))

-- `fetchContractOperations` returns, in the order of the contracts, the operations that have not
-- failed, or all where failed ones are wanted, and lists the failed ones in either case; and with a
-- database, what it leaves of an operation is the last accepted row of those that it returns, or what
-- was there before. A row stands under the contract that owner_of names, which is looked for in the
-- operation and need not be the one that it was fetched for.
pub fetch_contract_operations_lem :
    (table : Table OperationRow) (accepts : OperationRow → Bool) (fetch : String → List Operation)
    (get : String → Option String) (ids : List String) (include_failed : Bool) (key : String)
    (s : table.State)
    → let (r, s') = fetch_contract_operations table accepts true fetch get ids include_failed s in
      let all = fetched fetch ids in
      let returned = filter (λ op. include_failed || not (is_failed_op op)) all in
      (r.operations ≡ returned)
      × (r.failed_operations ≡ filter is_failed_op all)
      × (table.find key s'
          ≡ last_of key (table.find key s) (
              keyed
                (filter accepts (stored_rows ids (map (λ op. (owner_of ids op, op)) returned)))))
unfolding fetch_contract_operations
fetch_contract_operations_lem table accepts fetch get ids include_failed key s =
    let g = gather_contracts fetch include_failed ids none_gathered in
    let (h, k) = gather_contracts-Gathers fetch include_failed ids none_gathered in
    (
      h,
      k,
      (store_operations_in_db_lem table accepts ids (map (λ op. (owner_of ids op, op)) g.operations)
            key s).0
          ∙ ap
              (λ ops.
                last_of key (table.find key s) (
                  keyed (filter accepts (stored_rows ids (map (λ op. (owner_of ids op, op)) ops)))))
              h,
    )
