-- ===== src/Registry/History.antt =====
-- What the table says of an attestation after upserts.
use Prim.Native.String.{String}
use text.Mathlib.TextEquality.{eq_iff}
use attest_so.Prelude.{
  ℕ, ◌+◌, ◌≡◌, refl, subst, ap, ◌∙◌, inl, inr, Bool, true, false, ◌&&◌, List, [], ◌∷◌, Option, none,
  some, ◌or_else◌, ◌is◌, if◌then◌else◌, Bool-cases, length, filter, arith,
}
use attest_so.Registry.Store.{AttestationData, Attestation, AttestationStore}
use attest_so.Registry.Attestations.{
  created_row, updated_row, EventInfo, data_of_create, data_of_revoke, has_ids,
  single_upsert_attestation, bulk_loop, bulk_upsert_attestations, project_create, project_revoke,
}

-- The row of an attestation after one upsert of it, and after those of a list that are its own.
abbrev pub merged : ℕ → AttestationData → Option Attestation → Attestation
merged now d none = created_row now d
merged now d (some r) = updated_row now d r

abbrev pub row_after :
    (AttestationData → Bool)
    → ℕ
    → String
    → Option Attestation
    → List AttestationData
    → Option Attestation
row_after accepts now uid row [] = row
row_after accepts now uid row (d ∷ ds) =
    row_after accepts now uid
      (if accepts d && (d.attestation_uid is uid) then some (merged now d row) else row) ds

module _ (store : AttestationStore) where
  find-upserted :
      (now : ℕ) (d : AttestationData) (s : store.State)
      → store.find d.attestation_uid
          (store.upsert d.attestation_uid (updated_row now d) (created_row now d) s)
        ≡ some (merged now d (store.find d.attestation_uid s))
  find-upserted now d s =
      store.find-upsert d.attestation_uid (updated_row now d) (created_row now d) s ∙ refl

  upserted-row :
      (now : ℕ) (d : AttestationData) (uid : String) (s : store.State)
      → store.find uid (store.upsert d.attestation_uid (updated_row now d) (created_row now d) s)
        ≡ (if d.attestation_uid is uid
            then some (merged now d (store.find uid s))
            else store.find uid s)
  upserted-row now d uid s = elim (Bool-cases (d.attestation_uid is uid)) [
    | inr other ↦ rw other (
        store.find-upsert_other uid d.attestation_uid (updated_row now d) (created_row now d) s
          other)
    | inl same ↦ rw same (
        subst
          (λ u.
            store.find u (store.upsert d.attestation_uid (updated_row now d) (created_row now d) s)
            ≡ some (merged now d (store.find u s)))
          ((eq_iff d.attestation_uid uid).0 same) (find-upserted now d s))
  ]

  bulk_loop-row :
      (accepts : AttestationData → Bool) (now : ℕ) (uid : String) (ds : List AttestationData)
      (s : store.State) (count : ℕ)
      → (store.find uid (bulk_loop store accepts now ds s count).0
          ≡ row_after accepts now uid (store.find uid s) ds)
        × ((bulk_loop store accepts now ds s count).1 ≡ count + length (filter accepts ds))
  unfolding bulk_loop
  bulk_loop-row accepts now uid [] s count = (refl, omega arith)
  bulk_loop-row accepts now uid (d ∷ ds) s count = elim (Bool-cases (accepts d)) [
    | inr refused ↦ rw refused (bulk_loop-row accepts now uid ds s count)
    | inl taken ↦
        let s' = store.upsert d.attestation_uid (updated_row now d) (created_row now d) s in
        let (row, total) = bulk_loop-row accepts now uid ds s' (count + 1) in
        rw taken (
          row ∙ ap (λ r. row_after accepts now uid r ds) (upserted-row now d uid s),
          omega (arith, total),
        )
  ]

-- After a bulk upsert that is committed, the row of an attestation is what the accepted data with
-- its uid make of the row before, one after another; and the result is the number of those accepted.
pub bulk_upsert_attestations-row :
    (store : AttestationStore) (accepts : AttestationData → Bool) (now : ℕ) (uid : String)
    (ds : List AttestationData) (s : store.State)
    → let (s', count) = bulk_upsert_attestations store true true accepts now ds s in
      (store.find uid s' ≡ row_after accepts now uid (store.find uid s) ds)
      × (count ≡ length (filter accepts ds))
unfolding bulk_upsert_attestations
bulk_upsert_attestations-row store accepts now uid [] s = (refl, refl)
bulk_upsert_attestations-row store accepts now uid (d ∷ ds) s =
    let (row, count) = bulk_loop-row store accepts now uid (d ∷ ds) s 0 in
    (row, omega (arith, count))

row_after-origin :
    (accepts : AttestationData → Bool) (now : ℕ) (uid : String) (r : Attestation)
    (ds : List AttestationData)
    → (r' : Attestation) × (row_after accepts now uid (some r) ds ≡ some r')
      × (r'.origin ≡ r.origin)
row_after-origin accepts now uid r [] = (r, refl, refl)
row_after-origin accepts now uid r (d ∷ ds) =
    elim (Bool-cases (accepts d && (d.attestation_uid is uid))) [
      | inr passed ↦ rw passed (row_after-origin accepts now uid r ds)
      | inl meant ↦
          let (r', after, same) = row_after-origin accepts now uid (updated_row now d r) ds in
          (r', rw meant after, same ∙ unfold updated_row in refl)
    ]

-- A bulk upsert, whatever the database accepts of it, never drops an attestation, and never changes
-- what it was created from: its ledger, schema, attester, subject, message, value and time.
bulk_upsert_attestations-origin :
    (store : AttestationStore) (connected commits : Bool) (accepts : AttestationData → Bool)
    (now : ℕ) (uid : String) (ds : List AttestationData) (s : store.State) (r : Attestation)
    → store.find uid s ≡ some r
    → (r' : Attestation) × (store.find uid
          (bulk_upsert_attestations store connected commits accepts now ds s).0
        ≡ some r')
      × (r'.origin ≡ r.origin)
unfolding bulk_upsert_attestations
bulk_upsert_attestations-origin store connected commits accepts now uid [] s r h = (r, h, refl)
bulk_upsert_attestations-origin store connected commits accepts now uid (d ∷ ds) s r h =
    elim (Bool-cases (connected && commits)) [
      | inr undone ↦ (r, rw undone h, refl)
      | inl done ↦
          let (r', after, same) = row_after-origin accepts now uid r (d ∷ ds) in
          (
            r',
            rw done (
                (bulk_loop-row store accepts now uid (d ∷ ds) s 0).0
                ∙ ap (λ row. row_after accepts now uid row (d ∷ ds)) h
                ∙ after),
            same,
          )
    ]

merged-revoked :
    (now : ℕ) (d : AttestationData) (row : Option Attestation)
    → (merged now d row).revoked ≡ d.revoked or_else false
unfolding created_row updated_row
merged-revoked now d none = refl
merged-revoked now d (some r) = refl

merged-revoked_at :
    (now t : ℕ) (d : AttestationData) (row : Option Attestation)
    → d.revoked_at ≡ some t
    → (merged now d row).revoked_at ≡ some t
unfolding created_row updated_row
merged-revoked_at now t d none h = h
merged-revoked_at now t d (some r) h = rw h refl

module _ (store : AttestationStore) where
  create-row :
      (now : ℕ) (e : EventInfo) (s : store.State)
      → has_ids e ≡ true
      → store.find e.attestation_uid (project_create store true true now e s)
        ≡ some (merged now (data_of_create e) (store.find e.attestation_uid s))
  unfolding project_create single_upsert_attestation data_of_create
  create-row now e s h = rw h (find-upserted store now (data_of_create e) s)

  revoke-row :
      (now at_time : ℕ) (v : EventInfo) (s : store.State)
      → has_ids v ≡ true
      → store.find v.attestation_uid (project_revoke store true true now v true (some at_time) s)
        ≡ some (merged now (data_of_revoke v true (some at_time)) (store.find v.attestation_uid s))
  unfolding project_revoke single_upsert_attestation data_of_revoke
  revoke-row now at_time v s h =
      rw h (find-upserted store now (data_of_revoke v true (some at_time)) s)

-- A revocation that was stored is undone when the event that created the attestation is ingested
-- once more, as it is after the indexer went back: the row is no longer revoked, although it keeps
-- the time of the revocation.
pub replayed_create_revives :
    (store : AttestationStore) (now later : ℕ) (e v : EventInfo) (at_time : ℕ) (s : store.State)
    → has_ids e ≡ true
    → has_ids v ≡ true
    → v.attestation_uid ≡ e.attestation_uid
    → let revoked = project_revoke store true true now v true (some at_time) s in
      let replayed = project_create store true true later e revoked in
      ((r : Attestation) × (store.find e.attestation_uid revoked ≡ some r)
        × (r.revoked ≡ true)
        × (r.revoked_at ≡ some at_time))
      × ((r : Attestation) × (store.find e.attestation_uid replayed ≡ some r)
          × (r.revoked ≡ false)
          × (r.revoked_at ≡ some at_time))
unfolding data_of_create data_of_revoke updated_row
replayed_create_revives store now later e v at_time s he hv same =
    let r₁ = merged now (data_of_revoke v true (some at_time)) (store.find v.attestation_uid s) in
    let revoked = project_revoke store true true now v true (some at_time) s in
    let first : store.find e.attestation_uid revoked ≡ some r₁ =
      subst (λ u. store.find u revoked ≡ some r₁) same (revoke-row store now at_time v s hv) in
    let time : r₁.revoked_at ≡ some at_time =
      merged-revoked_at now at_time (data_of_revoke v true (some at_time)) _ refl in
    (
      (r₁, first, merged-revoked now (data_of_revoke v true (some at_time)) _, time),
      (
        updated_row later (data_of_create e) r₁,
        create-row store later e revoked he
            ∙ ap (λ row. some (merged later (data_of_create e) row)) first,
        refl,
        time,
      ),
    )
