-- ===== src/Registry/Schemas.antt =====
-- apps/horizon/src/repository/schemas.repository.ts: rows of the table of schemas, and the upserts. A
-- parsed definition is its JSON text. `now` is the time of the statement; whether the database accepts
-- a statement and commits a transaction is given.
use Prim.Native.String.{String}
use attest_so.Prelude.{
  ℕ, ◌+◌, Bool, true, ◌&&◌, List, [], ◌∷◌, Option, none, some, ◌or_else◌, text_or, if◌then◌else◌,
}
use attest_so.Storage.{Table}

pub record SchemaData : Type 0 where
  pub uid : String
  pub ledger : ℕ
  pub schema_definition : String
  pub parsed_schema_definition : Option String
  pub resolver_address : Option String
  pub revocable : Option Bool
  pub deployer_address : String
  pub type : Option String
  pub transaction_hash : String
  pub created_at : Option ℕ
  pub contract_address : String

-- A row. `last_updated` is none until the first update.
pub record SchemaRow : Type 0 where
  pub uid : String
  pub ledger : ℕ
  pub schema_definition : String
  pub parsed_schema_definition : Option String
  pub resolver_address : Option String
  pub revocable : Bool
  pub deployer_address : String
  pub type : String
  pub transaction_hash : String
  pub created_at : Option ℕ
  pub contract_address : String
  pub last_updated : Option ℕ

unfoldable pub created_schema : SchemaData → SchemaRow
created_schema d = record {
  uid = d.uid;
  ledger = d.ledger;
  schema_definition = d.schema_definition;
  parsed_schema_definition = d.parsed_schema_definition;
  resolver_address = d.resolver_address;
  revocable = d.revocable or_else true;
  deployer_address = d.deployer_address;
  type = text_or d.type "default";
  transaction_hash = d.transaction_hash;
  created_at = d.created_at;
  contract_address = d.contract_address;
  last_updated = none;
}

-- A definition that could not be parsed leaves the one that is there.
abbrev parsed_or : Option String → Option String → Option String
parsed_or none old = old
parsed_or (some p) old = some p

unfoldable pub updated_schema : ℕ → SchemaData → SchemaRow → SchemaRow
updated_schema now d r = record r {
  parsed_schema_definition = parsed_or d.parsed_schema_definition r.parsed_schema_definition;
  last_updated = some now;
}

module _ (table : Table SchemaRow) where
  abbrev pub upsert_schema : ℕ → SchemaData → table.State → table.State
  upsert_schema now d s = table.upsert d.uid (updated_schema now d) (created_schema d) s

  -- The row that is returned is null where nothing was written.
  unfoldable pub single_upsert_schema :
      Bool → Bool → ℕ → SchemaData → table.State → table.State × Option SchemaRow
  single_upsert_schema connected accepted now d s =
      let after = upsert_schema now d s in
      if connected && accepted then (after, table.find d.uid after) else (s, none)

  unfoldable pub bulk_schemas_loop :
      (SchemaData → Bool) → ℕ → List SchemaData → table.State → ℕ → table.State × ℕ
  bulk_schemas_loop accepts now [] s count = (s, count)
  bulk_schemas_loop accepts now (d ∷ ds) s count =
      if accepts d
      then bulk_schemas_loop accepts now ds (upsert_schema now d s) (count + 1)
      else bulk_schemas_loop accepts now ds s count

  unfoldable pub bulk_upsert_schemas :
      Bool → Bool → (SchemaData → Bool) → ℕ → List SchemaData → table.State → table.State × ℕ
  unfolding bulk_schemas_loop
  bulk_upsert_schemas connected commits accepts now [] s = (s, 0)
  bulk_upsert_schemas connected commits accepts now (d ∷ ds) s =
      if connected && commits then bulk_schemas_loop accepts now (d ∷ ds) s 0 else (s, 0)
