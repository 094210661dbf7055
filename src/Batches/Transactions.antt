-- ===== src/Batches/Transactions.antt =====
-- apps/horizon/src/repository/transactions.repository.ts: `storeTransactionsInDB`. Times that are given
-- are numbers or texts of a date, as texts; `parse_date` is none where the date is invalid. A field
-- that is null is stored as none, as one that is absent.
use Prim.Native.String.{String}
use attest_so.Prelude.{
  ℕ, zero, suc, ◌+◌, Bool, false, not, ◌&&◌, ◌||◌, List, [], ◌∷◌, Option, none, some, ◌or_else◌,
  ◌or_text◌, text_or, truthy, ◌==◌, ◌is◌, length, take, drop, if◌then◌else◌,
}
use attest_so.Storage.{Table}
use attest_so.Batches.Types.{LedgerValue, no_ledger, ledger_number, ledger_text, StoredTransaction}
use attest_so.Batches.Rows.{given_or, given_text, ledger_number_of}
use attest_so.Batches.Texts.{to_upper_case}

-- A value that is read as a truth value.
pub data FlagValue : Type 0 where
  no_flag : FlagValue
  boolean : Bool → FlagValue
  flag_text : String → FlagValue

pub record TransactionData : Type 0 where
  pub hash : Option String
  pub tx_hash : Option String
  pub ledger : LedgerValue
  pub created_at : Option String
  pub timestamp : Option String
  pub source_account : Option String
  pub source_account_snake : Option String
  pub fee : Option String
  pub fee_charged : Option String
  pub operation_count : LedgerValue
  pub operation_count_snake : LedgerValue
  pub envelope_xdr : Option String
  pub envelope : Option String
  pub result_xdr : Option String
  pub result : Option String
  pub result_meta_xdr : Option String
  pub meta : Option String
  pub fee_bump : FlagValue
  pub successful : FlagValue
  pub status : FlagValue
  pub memo : Option String
  pub memo_type : Option String
  pub memo_type_snake : Option String
  pub inclusion_fee : Option String
  pub resource_fee : Option String
  pub soroban_resource_usage : Option String

-- `toBoolean`
unfoldable pub to_boolean : FlagValue → Bool
to_boolean no_flag = false
to_boolean (boolean b) = b
to_boolean (flag_text t) = to_upper_case t is "TRUE" || to_upper_case t is "SUCCESS"

-- `typeof tx.successful === 'boolean' ? tx.successful : toBoolean(tx.status)`
unfoldable pub was_successful : FlagValue → FlagValue → Bool
was_successful (boolean b) status = b
was_successful no_flag status = to_boolean status
was_successful (flag_text t) status = to_boolean status

-- `num(v, 0)`
abbrev pub num : LedgerValue → ℕ
num v = ledger_number_of v or_else 0

-- `a || b`, of numbers.
abbrev pub first_number : LedgerValue → LedgerValue → LedgerValue
first_number no_ledger other = other
first_number (ledger_number n) other = if n == 0 then other else ledger_number n
first_number (ledger_text t) other = if truthy t then ledger_text t else other

abbrev pub valid_or : Option ℕ → ℕ → ℕ
valid_or none now = now
valid_or (some time) now = time

-- `toDate`
abbrev pub to_date : (String → Option ℕ) → ℕ → Option String → ℕ
to_date parse_date now none = now
to_date parse_date now (some t) = if truthy t then valid_or (parse_date t) now else now

unfoldable pub incoming : (String → Option ℕ) → ℕ → String → TransactionData → StoredTransaction
incoming parse_date now hash t = record {
  hash = hash;
  ledger = some (num t.ledger);
  timestamp = to_date parse_date now (t.created_at or_text t.timestamp);
  source_account = text_or (t.source_account or_text t.source_account_snake) "";
  fee = text_or (t.fee or_text t.fee_charged) "0";
  operation_count = num (first_number t.operation_count t.operation_count_snake);
  envelope = given_text (t.envelope_xdr or_text t.envelope);
  result = given_text (t.result_xdr or_text t.result);
  meta = given_text (t.result_meta_xdr or_text t.meta);
  fee_bump = to_boolean t.fee_bump;
  successful = was_successful t.successful t.status;
  memo = t.memo;
  memo_type = given_text (t.memo_type or_text t.memo_type_snake);
  inclusion_fee = given_text t.inclusion_fee;
  resource_fee = given_text t.resource_fee;
  soroban_resource_usage = given_text t.soroban_resource_usage;
}

-- The two fees are undefined where they are not given, and then left alone.
unfoldable pub updated_incoming : StoredTransaction → StoredTransaction → StoredTransaction
updated_incoming row old = record row {
  inclusion_fee = given_or row.inclusion_fee old.inclusion_fee;
  resource_fee = given_or row.resource_fee old.resource_fee;
}

pub record TransactionSetting : Type 0 where
  pub parse_date : String → Option ℕ
  pub now : ℕ
  pub accepts : StoredTransaction → Bool

abbrev pub key_of : TransactionData → Option String
key_of t = given_text (t.hash or_text t.tx_hash)

module _ (table : Table StoredTransaction) where
  unfoldable pub upsert_incoming :
      TransactionSetting → StoredTransaction → table.State × ℕ → table.State × ℕ
  upsert_incoming w row (s, count) =
      if w.accepts row
      then (table.upsert row.hash (updated_incoming row) row s, count + 1)
      else (s, count)

  -- The loop over a batch: what has no hash is passed over, and so is what the database refuses.
  unfoldable pub transactions_loop :
      TransactionSetting → List TransactionData → table.State × ℕ → table.State × ℕ
  transactions_loop w [] after = after
  transactions_loop w (t ∷ ts) after = elim (key_of t) [
    | none ↦ transactions_loop w ts after
    | some hash ↦
        transactions_loop w ts (upsert_incoming w (incoming w.parse_date w.now hash t) after)
  ]

  -- The batches of 100; the fuel is the number of transactions.
  unfoldable pub transaction_batches :
      TransactionSetting → ℕ → List TransactionData → table.State × ℕ → table.State × ℕ
  transaction_batches w zero ts after = after
  transaction_batches w (suc fuel) [] after = after
  transaction_batches w (suc fuel) (t ∷ ts) after =
      transaction_batches w fuel (drop 100 (t ∷ ts)) (transactions_loop w (take 100 (t ∷ ts)) after)

  unfoldable pub store_transactions_in_db :
      TransactionSetting → Bool → List TransactionData → table.State → table.State × ℕ
  store_transactions_in_db w connected ts s =
      if connected && not (length ts == 0)
      then transaction_batches w (length ts) ts (s, 0)
      else (s, 0)
