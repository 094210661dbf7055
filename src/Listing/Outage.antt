-- ===== src/Listing/Outage.antt =====
-- apps/horizon/src/router/registry.router.ts: the answers of the list routes where the database fails.
use attest_so.Prelude.{ℕ, zero, suc, min, ◌≡◌, refl, ap, List, [], take, drop, ◌or_else◌}
use attest_so.Listing.Queries.{
  unavailable, failing, holding, Page, find_page, get_attestations, get_schemas,
}
use attest_so.Listing.Routes.{
  AttestationQuery, list_attestations_by, list_attestations, SchemaQuery, list_schemas_by,
  list_schemas,
}

abbrev page_with : {Row : Type 0} → List Row → Page Row
page_with rows = record { rows = rows; total = 0 }

empty_page :
    {Row : Type 0} (limit offset : ℕ)
    → page_with {Row = Row} [] ≡ page_with (take (min limit 200) (drop offset []))
empty_page {Row} limit offset = ap (page_with {Row = Row}) (nothing (min limit 200) offset)
  where
    nothing : {A : Type 0} (n k : ℕ) → [] ≡ take n (drop {A = A} k [])
    nothing zero k = refl
    nothing (suc n) zero = refl
    nothing (suc n) (suc k) = refl

-- A list asked of a database that cannot be reached, or that throws, is answered as from an empty
-- one: with success and no rows.
outage_looks_empty :
    (q : AttestationQuery) (p : SchemaQuery)
    → ((list_attestations unavailable q ≡ list_attestations (holding []) q)
        × (list_attestations failing q ≡ list_attestations (holding []) q))
      × ((list_schemas unavailable p ≡ list_schemas (holding []) p)
          × (list_schemas failing p ≡ list_schemas (holding []) p))
unfolding list_attestations list_schemas get_attestations get_schemas find_page
outage_looks_empty q p = (
  (
    ap (λ g. list_attestations_by g q) attestations,
    ap (λ g. list_attestations_by g q) attestations,
  ),
  (ap (λ g. list_schemas_by g p) schemas, ap (λ g. list_schemas_by g p) schemas),
)
  where
    attestations : get_attestations unavailable ≡ get_attestations (holding [])
    attestations = λ i f. empty_page (f.limit or_else 50) (f.offset or_else 0) i

    schemas : get_schemas unavailable ≡ get_schemas (holding [])
    schemas = λ i f. empty_page (f.limit or_else 50) (f.offset or_else 0) i
