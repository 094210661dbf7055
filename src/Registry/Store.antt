-- ===== src/Registry/Store.antt =====
-- apps/horizon/src/repository/attestations.repository.ts: rows of the table of attestations, and what
-- the repository uses of the database client. A value is its JSON text; times are numbers.
use Prim.Native.String.{String}
use attest_so.Storage.{Table}
use attest_so.Prelude.{ℕ, Bool, Option}

pub record AttestationData : Type 0 where
  pub attestation_uid : String
  pub ledger : ℕ
  pub schema_uid : String
  pub attester_address : String
  pub subject_address : Option String
  pub transaction_hash : String
  pub schema_encoding : String
  pub message : String
  pub value : Option String
  pub revoked : Option Bool
  pub revoked_at : Option ℕ
  pub created_at : Option ℕ
  pub contract_address : String

-- A row: what it was created from, and what updates change.
pub record Attestation : Type 0 where
  pub origin : AttestationData
  pub revoked : Bool
  pub revoked_at : Option ℕ
  pub last_updated : ℕ

-- The table behind `db.attestation`, keyed by the uid.
abbrev pub AttestationStore : Type 1
AttestationStore = Table Attestation
