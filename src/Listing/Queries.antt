-- ===== src/Listing/Queries.antt =====
-- The queries of apps/horizon/src/repository: attestations.repository.ts, schemas.repository.ts and
-- contract-transactions.repository.ts. What a query meets is the list of the rows of its table, the
-- newest first, as the statement orders them. The statements order by the time of creation only: rows
-- with one time, or none, can stand in another order in the next query.
use Prim.Native.String.{String}
use attest_so.Prelude.{
  ℕ, min, Bool, true, false, ◌&&◌, List, [], ◌∷◌, Option, none, some, length, take, drop, filter,
  leb, ◌==◌, ◌or_else◌, ◌is◌, truthy, if◌then◌else◌,
}
use attest_so.Registry.Store.{Attestation}
use attest_so.Registry.Schemas.{SchemaRow}
use attest_so.Registry.Transactions.{ContractTransaction}
use attest_so.Listing.Params.{LedgerParam, any_ledger, bad_ledger, no_such_ledger, at_ledger}

-- The database as one query meets it: `getDB` finds none, a statement throws, or it holds the rows, in
-- the order in which the query sees them.
pub data Db (Row : Type 0) : Type 0 where
  unavailable failing : Db Row
  holding : List Row → Db Row

pub record Page (Row : Type 0) : Type 0 where
  pub rows : List Row
  pub total : ℕ

-- `findMany` and `count`; without a database, or where a statement throws, a page is empty.
unfoldable pub find_page : {Row : Type 0} → Db Row → (Row → Bool) → ℕ → ℕ → Page Row
find_page unavailable matches limit offset = record { rows = []; total = 0 }
find_page failing matches limit offset = record { rows = []; total = 0 }
find_page (holding rows) matches limit offset = record {
  rows = take (min limit 200) (drop offset (filter matches rows));
  total = length (filter matches rows);
}

-- The first row that matches.
unfoldable find_first : {Row : Type 0} → Db Row → (Row → Bool) → Option Row
find_first unavailable matches = none
find_first failing matches = none
find_first (holding rows) matches = elim (filter matches rows) [ [] ↦ none | r ∷ rs ↦ some r ]

-- A filter that is not given, or empty, lets every row through.
abbrev by_text : Option String → String → Bool
by_text none value = true
by_text (some t) value = if truthy t then value is t else true

abbrev by_flag : Option Bool → Bool → Bool
by_flag none value = true
by_flag (some true) value = value
by_flag (some false) value = if value then false else true

abbrev pub by_ledger : LedgerParam → ℕ → Bool
by_ledger any_ledger value = true
by_ledger bad_ledger value = true
by_ledger no_such_ledger value = false
by_ledger (at_ledger n) value = value == n

pub record AttestationFilters : Type 0 where
  pub ledger : LedgerParam
  pub schema_uid : Option String
  pub attester_address : Option String
  pub subject_address : Option String
  pub revoked : Option Bool
  pub limit : Option ℕ
  pub offset : Option ℕ

unfoldable pub matches_attestation : AttestationFilters → Attestation → Bool
matches_attestation f r =
    by_ledger f.ledger r.origin.ledger
    && by_text f.schema_uid r.origin.schema_uid
    && by_text f.attester_address r.origin.attester_address
    && by_text f.subject_address (r.origin.subject_address or_else "")
    && by_flag f.revoked r.revoked

unfoldable pub get_attestations : Db Attestation → AttestationFilters → Page Attestation
unfolding find_page
get_attestations db f =
    find_page db (matches_attestation f) (f.limit or_else 50) (f.offset or_else 0)

unfoldable pub get_attestation_by_uid : Db Attestation → String → Option Attestation
unfolding find_first
get_attestation_by_uid db uid = find_first db (λ r. r.origin.attestation_uid is uid)

pub record SchemaFilters : Type 0 where
  pub ledger : LedgerParam
  pub deployer_address : Option String
  pub type : Option String
  pub revocable : Option Bool
  pub limit : Option ℕ
  pub offset : Option ℕ

unfoldable pub matches_schema : SchemaFilters → SchemaRow → Bool
matches_schema f r =
    by_ledger f.ledger r.ledger
    && by_text f.deployer_address r.deployer_address
    && by_text f.type r.type
    && by_flag f.revocable r.revocable

unfoldable pub get_schemas : Db SchemaRow → SchemaFilters → Page SchemaRow
unfolding find_page
get_schemas db f = find_page db (matches_schema f) (f.limit or_else 50) (f.offset or_else 0)

unfoldable pub get_schema_by_uid : Db SchemaRow → String → Option SchemaRow
unfolding find_first
get_schema_by_uid db uid = find_first db (λ r. r.uid is uid)

record TransactionFilters : Type 0 where
  pub action : Option String
  pub source_account : Option String
  pub contract_id : Option String
  pub ledger : LedgerParam
  pub start_time : Option ℕ
  pub end_time : Option ℕ
  pub limit : Option ℕ
  pub offset : Option ℕ

-- The rows' ledger may be null, which no filter on it lets through.
abbrev by_some_ledger : LedgerParam → Option ℕ → Bool
by_some_ledger any_ledger value = true
by_some_ledger bad_ledger value = true
by_some_ledger no_such_ledger value = false
by_some_ledger (at_ledger n) none = false
by_some_ledger (at_ledger n) (some l) = l == n

unfoldable matches_transaction : TransactionFilters → ContractTransaction → Bool
matches_transaction f t =
    by_text f.action t.action
    && by_text f.source_account t.source_account
    && by_text f.contract_id t.contract_id
    && by_some_ledger f.ledger t.ledger
    && leb (f.start_time or_else 0) t.timestamp
    && elim f.end_time [ none ↦ true | some end ↦ leb t.timestamp end ]

unfoldable get_contract_transactions :
    Db ContractTransaction → TransactionFilters → Page ContractTransaction
unfolding find_page
get_contract_transactions db f =
    find_page db (matches_transaction f) (f.limit or_else 50) (f.offset or_else 0)

unfoldable get_contract_transaction_by_event_id :
    Db ContractTransaction → String → Option ContractTransaction
unfolding find_first
get_contract_transaction_by_event_id db id = find_first db (λ t. t.event_id is id)

unfoldable get_contract_transaction_by_hash :
    Db ContractTransaction → String → Option ContractTransaction
unfolding find_first
get_contract_transaction_by_hash db hash = find_first db (λ t. t.transaction_hash is hash)

-- `getContractTransactionsByAction`, `getContractTransactionsByAccount`, `getRecentContractTransactions`.
unfoldable get_contract_transactions_by_action :
    Db ContractTransaction → String → ℕ → List ContractTransaction
unfolding find_page
get_contract_transactions_by_action db action limit =
    (find_page db (λ t. t.action is action) limit 0).rows

unfoldable get_contract_transactions_by_account :
    Db ContractTransaction → String → ℕ → List ContractTransaction
unfolding find_page
get_contract_transactions_by_account db account limit =
    (find_page db (λ t. t.source_account is account) limit 0).rows

unfoldable get_recent_contract_transactions : Db ContractTransaction → ℕ → List ContractTransaction
unfolding find_page
get_recent_contract_transactions db limit = (find_page db (λ t. true) limit 0).rows

-- The first element of the metadata of the newest transaction with the hash and the action.
abbrev uid_in : Option ContractTransaction → Option String
uid_in none = none
uid_in (some t) = elim t.metadata [
  | none ↦ none
  | some elements ↦ elim elements [ [] ↦ none | u ∷ us ↦ if truthy u then some u else none ]
]

unfoldable pub get_attestation_by_tx_hash :
    Db ContractTransaction → Db Attestation → String → Option Attestation
unfolding find_first get_attestation_by_uid
get_attestation_by_tx_hash transactions db hash =
    elim (uid_in
      (find_first transactions (λ t. t.transaction_hash is hash && t.action is "ATTEST:CREATE"))) [
        | none ↦ none
        | some uid ↦ get_attestation_by_uid db uid
      ]

unfoldable pub get_schema_by_tx_hash :
    Db ContractTransaction → Db SchemaRow → String → Option SchemaRow
unfolding find_first get_schema_by_uid
get_schema_by_tx_hash transactions db hash =
    elim (uid_in (
      find_first transactions (λ t. t.transaction_hash is hash && t.action is "SCHEMA:REGISTER"))) [
        | none ↦ none
        | some uid ↦ get_schema_by_uid db uid
      ]
