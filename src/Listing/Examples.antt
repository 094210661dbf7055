-- ===== src/Listing/Examples.antt =====
-- Lists of a small registry, and the theorems at them.
use Prim.Native.String.{String}
use attest_so.Prelude.{
  inl, inr, zero, suc, ℕ, ◌*◌, ◌≤◌, ◌≡◌, refl, true, false, List, [], ◌∷◌, map, none, some, length,
  take, filter, arith,
}
use attest_so.Registry.Store.{Attestation}
use attest_so.Registry.Schemas.{SchemaRow, created_schema}
use attest_so.Listing.Params.{any_ledger, limit_num, offset_num, ledger_param}
use attest_so.Listing.Queries.{
  holding, find_page, AttestationFilters, matches_attestation, get_attestations,
}
use attest_so.Listing.Routes.{
  ApiAttestation, transform_attestation_for_api, transform_schema_for_api, Listed, success,
  list_attestations_by, list_attestations,
}
use attest_so.Listing.Client.{
  got, RegistryDump, no_attestation_query, transform_attestation, transform_schema,
}
use attest_so.Listing.Paging.{pages, pages_cover, IsPage, list_attestations_bounds}
use attest_so.Listing.Order.{IsNewestFirst, HaveSameRows}
use attest_so.Listing.Dump.{dump_of, dump_is_cut}

abbrev attestation : String → ℕ → Attestation
attestation uid ledger = record {
  origin = record {
    attestation_uid = uid;
    ledger = ledger;
    schema_uid = "s1";
    attester_address = "GA";
    subject_address = none;
    transaction_hash = "h";
    schema_encoding = "JSON";
    message = "{}";
    value = none;
    revoked = none;
    revoked_at = none;
    created_at = some ledger;
    contract_address = "CA";
  };
  revoked = true;
  revoked_at = none;
  last_updated = 0;
}

abbrev three : List Attestation
three = attestation "a3" 12 ∷ attestation "a2" 11 ∷ attestation "a1" 10 ∷ []

abbrev schema : SchemaRow
unfolding created_schema
schema = created_schema (record {
  uid = "s1";
  ledger = 9;
  schema_definition = "{}";
  parsed_schema_definition = none;
  resolver_address = none;
  revocable = none;
  deployer_address = "GA";
  type = none;
  transaction_hash = "h";
  created_at = some 9;
  contract_address = "CA";
})

abbrev by_anyone : AttestationFilters
by_anyone = record {
  ledger = any_ledger;
  schema_uid = none;
  attester_address = none;
  subject_address = none;
  revoked = none;
  limit = none;
  offset = none;
}

three_match : length (filter (matches_attestation by_anyone) three) ≤ 2 * 2
unfolding matches_attestation
three_match = omega arith

three_in_order : IsNewestFirst three
three_in_order = (
  ((12, 11, refl, refl, omega arith), ((12, 10, refl, refl, omega arith), tt)),
  (((11, 10, refl, refl, omega arith), tt), (tt, tt)),
)

same_three : HaveSameRows three three
same_three = (
  (inl refl, (inr (inl refl), (inr (inr (inl refl)), tt))),
  (inl refl, (inr (inl refl), (inr (inr (inl refl)), tt))),
)

pages_cover_example :
    pages (λ i. holding three) by_anyone 2 2 0 ≡ filter (matches_attestation by_anyone) three
pages_cover_example =
    pages_cover (λ i. three) three by_anyone 2 2 three_in_order (λ i. three_in_order)
      (λ i. same_three) (omega arith) three_match

-- Two rows of one time, which two queries see in different orders: one is listed twice, and the other
-- is not listed.
abbrev tied : ℕ → List Attestation
tied zero = attestation "a1" 10 ∷ attestation "a2" 10 ∷ []
tied (suc i) = attestation "a2" 10 ∷ attestation "a1" 10 ∷ []

a_tie_repeats :
    pages (λ i. holding (tied i)) by_anyone 1 2 0 ≡ attestation "a1" 10 ∷ attestation "a1" 10 ∷ []
unfolding get_attestations find_page matches_attestation
a_tie_repeats = refl

abbrev first_page : Listed ApiAttestation
unfolding transform_attestation_for_api
first_page = record {
  items = map transform_attestation_for_api three;
  total = 3;
  limit = 50;
  offset = 0;
  has_more = false;
}

answers_first_page : list_attestations (holding three) no_attestation_query ≡ success first_page
unfolding list_attestations list_attestations_by limit_num offset_num ledger_param get_attestations
    find_page matches_attestation transform_attestation_for_api
answers_first_page = refl

list_attestations_bounds_example : IsPage three no_attestation_query first_page
list_attestations_bounds_example =
    list_attestations_bounds three no_attestation_query first_page answers_first_page

abbrev no_bytes : String → List ℕ
no_bytes t = []

dump_is_cut_example :
    (d : RegistryDump) × (dump_of no_bytes three (schema ∷ []) 7 ≡ got d)
    × (d.schemas
        ≡ map (transform_schema no_bytes) (map transform_schema_for_api (take 200 (schema ∷ []))))
    × (d.attestations
        ≡ map (transform_attestation no_bytes) (map transform_attestation_for_api (take 200 three)))
dump_is_cut_example = dump_is_cut no_bytes three (schema ∷ []) 7
