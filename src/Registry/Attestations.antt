-- ===== src/Registry/Attestations.antt =====
-- apps/horizon/src/repository/attestations.repository.ts: the upserts; and the two upserts that
-- apps/horizon/src/repository/ingest.repository.ts makes of an attestation event, from the values that
-- it has decoded. `now` is the time of the statement. Whether the database accepts a statement, and
-- whether it commits a transaction, is given.
use Prim.Native.String.{String}
use attest_so.Prelude.{
  ℕ, ◌+◌, Bool, false, ◌&&◌, List, [], ◌∷◌, Option, none, some, ◌or_else◌, truthy, if◌then◌else◌,
}
use attest_so.Registry.Store.{AttestationData, Attestation, AttestationStore}

unfoldable pub created_row : ℕ → AttestationData → Attestation
created_row now d = record {
  origin = d;
  revoked = d.revoked or_else false;
  revoked_at = d.revoked_at;
  last_updated = now;
}

-- A field that is undefined is not changed.
abbrev pub given_or : Option ℕ → Option ℕ → Option ℕ
given_or none old = old
given_or (some t) old = some t

unfoldable pub updated_row : ℕ → AttestationData → Attestation → Attestation
updated_row now d r = record r {
  revoked = d.revoked or_else false;
  revoked_at = given_or d.revoked_at r.revoked_at;
  last_updated = now;
}

pub record EventInfo : Type 0 where
  pub attestation_uid : String
  pub schema_uid : String
  pub attester : String
  pub subject : Option String
  pub message : String
  pub value : Option String
  pub ledger : ℕ
  pub transaction_hash : String
  pub contract_id : String
  pub timestamp : ℕ

unfoldable pub data_of_create : EventInfo → AttestationData
data_of_create e = record {
  attestation_uid = e.attestation_uid;
  ledger = e.ledger;
  schema_uid = e.schema_uid;
  attester_address = e.attester;
  subject_address = e.subject;
  transaction_hash = e.transaction_hash;
  schema_encoding = "JSON";
  message = e.message;
  value = e.value;
  revoked = some false;
  revoked_at = none;
  created_at = some e.timestamp;
  contract_address = e.contract_id;
}

-- `flag` is the fifth value of the event, and `at` the time in it, if there is one.
unfoldable pub data_of_revoke : EventInfo → Bool → Option ℕ → AttestationData
data_of_revoke e flag at_time = record {
  attestation_uid = e.attestation_uid;
  ledger = e.ledger;
  schema_uid = e.schema_uid;
  attester_address = e.attester;
  subject_address = e.subject;
  transaction_hash = e.transaction_hash;
  schema_encoding = "JSON";
  message = "";
  value = none;
  revoked = some flag;
  revoked_at = some (at_time or_else e.timestamp);
  created_at = some e.timestamp;
  contract_address = e.contract_id;
}

abbrev pub has_ids : EventInfo → Bool
has_ids e = truthy e.attestation_uid && truthy e.schema_uid && truthy e.attester

module _ (store : AttestationStore) where
  -- The row that is returned is null where nothing was written.
  unfoldable pub single_upsert_attestation :
      Bool → Bool → ℕ → AttestationData → store.State → store.State × Option Attestation
  single_upsert_attestation connected accepted now d s =
      let after = store.upsert d.attestation_uid (updated_row now d) (created_row now d) s in
      if connected && accepted then (after, store.find d.attestation_uid after) else (s, none)

  unfoldable pub bulk_loop :
      (AttestationData → Bool) → ℕ → List AttestationData → store.State → ℕ → store.State × ℕ
  bulk_loop accepts now [] s count = (s, count)
  bulk_loop accepts now (d ∷ ds) s count =
      if accepts d
      then bulk_loop accepts now ds
          (store.upsert d.attestation_uid (updated_row now d) (created_row now d) s) (count + 1)
      else bulk_loop accepts now ds s count

  unfoldable pub bulk_upsert_attestations :
      Bool
      → Bool
      → (AttestationData → Bool)
      → ℕ
      → List AttestationData
      → store.State
      → store.State × ℕ
  unfolding bulk_loop
  bulk_upsert_attestations connected commits accepts now [] s = (s, 0)
  bulk_upsert_attestations connected commits accepts now (d ∷ ds) s =
      if connected && commits then bulk_loop accepts now (d ∷ ds) s 0 else (s, 0)

  unfoldable pub project_create : Bool → Bool → ℕ → EventInfo → store.State → store.State
  unfolding single_upsert_attestation
  project_create connected accepted now e s =
      if has_ids e
      then (single_upsert_attestation connected accepted now (data_of_create e) s).0
      else s

  unfoldable pub project_revoke :
      Bool → Bool → ℕ → EventInfo → Bool → Option ℕ → store.State → store.State
  unfolding single_upsert_attestation
  project_revoke connected accepted now e flag at_time s =
      if has_ids e
      then (single_upsert_attestation connected accepted now (data_of_revoke e flag at_time) s).0
      else s
