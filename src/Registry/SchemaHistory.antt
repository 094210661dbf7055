-- ===== src/Registry/SchemaHistory.antt =====
-- What the table says of a schema after upserts.
use Prim.Native.String.{String}
use attest_so.Prelude.{
  ℕ, ◌+◌, ◌≡◌, refl, ap, ◌∙◌, inl, inr, Bool, true, false, List, [], ◌∷◌, some, map, filter, Has,
  length, Bool-cases, arith,
}
use attest_so.Storage.{Table}
use attest_so.Storage.Upserts.{Upsert, row_after, row_after-keeps, upserts, find-upserts}
use attest_so.Registry.Schemas.{
  SchemaData, SchemaRow, created_schema, updated_schema, upsert_schema, bulk_schemas_loop,
  bulk_upsert_schemas,
}

abbrev schema_upsert : ℕ → SchemaData → Upsert SchemaRow
schema_upsert now d = record {
  key = d.uid;
  update = updated_schema now d;
  create = created_schema d;
}

-- Two rows say the same of the schema that was registered.
abbrev pub SameSchema : SchemaRow → SchemaRow → Type 0
SameSchema r r' =
    (r.uid ≡ r'.uid)
    × (r.ledger ≡ r'.ledger)
    × (r.schema_definition ≡ r'.schema_definition)
    × (r.resolver_address ≡ r'.resolver_address)
    × (r.revocable ≡ r'.revocable)
    × (r.deployer_address ≡ r'.deployer_address)
    × (r.type ≡ r'.type)
    × (r.transaction_hash ≡ r'.transaction_hash)
    × (r.created_at ≡ r'.created_at)
    × (r.contract_address ≡ r'.contract_address)

module _ (table : Table SchemaRow) where
  bulk_schemas_loop_lem :
      (accepts : SchemaData → Bool) (now : ℕ) (ds : List SchemaData) (s : table.State) (count : ℕ)
      → bulk_schemas_loop table accepts now ds s count ≡ (
        upserts table (map (schema_upsert now) (filter accepts ds)) s,
        count + length (filter accepts ds),
      )
  unfolding bulk_schemas_loop upserts
  bulk_schemas_loop_lem accepts now [] s count = ap (λ k. (s, k)) (omega arith)
  bulk_schemas_loop_lem accepts now (d ∷ ds) s count = elim (Bool-cases (accepts d)) [
    | inr refused ↦ rw refused (bulk_schemas_loop_lem accepts now ds s count)
    | inl taken ↦ rw taken (
        bulk_schemas_loop_lem accepts now ds (upsert_schema table now d s) (count + 1)
        ∙ ap
            (λ k. (
              upserts table (map (schema_upsert now) (filter accepts ds))
                  (upsert_schema table now d s),
              k,
            ))
            (omega arith))
  ]

  -- The upserts of a call that is committed.
  bulk_upsert_schemas_lem :
      (accepts : SchemaData → Bool) (now : ℕ) (ds : List SchemaData) (s : table.State)
      → bulk_upsert_schemas table true true accepts now ds s ≡ (
        upserts table (map (schema_upsert now) (filter accepts ds)) s,
        length (filter accepts ds),
      )
  unfolding bulk_upsert_schemas upserts
  bulk_upsert_schemas_lem accepts now [] s = refl
  bulk_upsert_schemas_lem accepts now (d ∷ ds) s =
      bulk_schemas_loop_lem accepts now (d ∷ ds) s 0
      ∙ ap (λ k. (upserts table (map (schema_upsert now) (filter accepts (d ∷ ds))) s, k))
          (omega arith)

  -- No upsert changes what is registered of a schema.
  updates-SameSchema :
      (now : ℕ) (r : SchemaRow) (ds : List SchemaData) (u : Upsert SchemaRow)
      → Has (λ v. v ≡ u) (map (schema_upsert now) ds)
      → (r' : SchemaRow) → SameSchema r r'
      → SameSchema r (u.update r')
  unfolding updated_schema
  updates-SameSchema now r [] u m r' h = elim m [ ]
  updates-SameSchema now r (d ∷ ds) u (inl same) r' h = rw (← same) h
  updates-SameSchema now r (d ∷ ds) u (inr later) r' h = updates-SameSchema now r ds u later r' h

  same-SameSchema : (r : SchemaRow) → SameSchema r r
  same-SameSchema r = (refl, refl, refl, refl, refl, refl, refl, refl, refl, refl)

-- A bulk upsert, whatever the database accepts of it, never drops a schema, and never changes what
-- was registered: its ledger, definition, resolver, deployer, type, transaction, time and contract, and
-- whether attestations under it can be revoked.
pub bulk_upsert_schemas-keeps :
    (table : Table SchemaRow) (connected commits : Bool) (accepts : SchemaData → Bool) (now : ℕ)
    (uid : String) (ds : List SchemaData) (s : table.State) (r : SchemaRow)
    → table.find uid s ≡ some r
    → (r' : SchemaRow) × (table.find uid
          (bulk_upsert_schemas table connected commits accepts now ds s).0
        ≡ some r')
      × SameSchema r r'
unfolding bulk_upsert_schemas
bulk_upsert_schemas-keeps table true true accepts now uid ds s r h =
    let (r', found, same) =
      row_after-keeps (SameSchema r) uid r (map (schema_upsert now) (filter accepts ds))
        (λ u m q k. updates-SameSchema table now r (filter accepts ds) u m q k)
        (same-SameSchema table r) in
    (
      r',
      ap (λ t. table.find uid t.0) (bulk_upsert_schemas_lem table accepts now ds s)
          ∙ find-upserts table uid (map (schema_upsert now) (filter accepts ds)) s
          ∙ ap (λ o. row_after uid o (map (schema_upsert now) (filter accepts ds))) h
          ∙ found,
      same,
    )
bulk_upsert_schemas-keeps table true false accepts now uid [] s r h =
    (r, h, same-SameSchema table r)
bulk_upsert_schemas-keeps table true false accepts now uid (d ∷ ds) s r h =
    (r, h, same-SameSchema table r)
bulk_upsert_schemas-keeps table false commits accepts now uid [] s r h =
    (r, h, same-SameSchema table r)
bulk_upsert_schemas-keeps table false commits accepts now uid (d ∷ ds) s r h =
    (r, h, same-SameSchema table r)
