-- ===== src/Listing/Dump.antt =====
-- The dump of the registry that packages/stellar-sdk takes, from the server of apps/horizon.
use Prim.Native.String.{String}
use attest_so.Prelude.{ℕ, ◌≡◌, refl, ap, Bool, true, List, [], ◌∷◌, map, take, filter}
use attest_so.Registry.Store.{Attestation}
use attest_so.Registry.Schemas.{SchemaRow}
use attest_so.Listing.Params.{any_ledger, limit_num_lem, offset_num, ledger_param}
use attest_so.Listing.Queries.{
  holding, find_page, matches_attestation, get_attestations, matches_schema, get_schemas,
}
use attest_so.Listing.Routes.{
  transform_attestation_for_api, transform_schema_for_api, Response, bad_request, not_found,
  success, list_attestations_by, list_attestations, list_schemas_by, list_schemas, schema_filters,
  attestation_filters,
}
use attest_so.Listing.Client.{
  Reply, replied, http_error, Fetched, got, RegistryDump, no_attestation_query, no_schema_query,
  transform_attestation, transform_schema, largest_ledger, fetch_registry_dump,
}

-- An answer of a route as the client sees it.
abbrev reply_of : {A : Type 0} → Response A → Reply A
reply_of (bad_request m) = http_error 400 m
reply_of (not_found m) = http_error 404 m
reply_of (success a) = replied a

-- The dump from a server whose database holds these rows.
abbrev pub dump_of :
    (String → List ℕ) → List Attestation → List SchemaRow → ℕ → Fetched RegistryDump
dump_of from_hex attestations schemas now =
    fetch_registry_dump from_hex (λ q. reply_of (list_attestations (holding attestations) q))
      (λ q. reply_of (list_schemas (holding schemas) q)) now

filter_all : {A : Type 0} (p : A → Bool) (xs : List A) → ((x : A) → p x ≡ true) → filter p xs ≡ xs
filter_all p [] h = refl
filter_all p (x ∷ xs) h = rw (h x) (ap (λ r. x ∷ r) (filter_all p xs h))

-- The dump of a registry is no more than the first 200 schemas and the first 200 attestations of it,
-- the newest ones, although 1000 are asked for: the server cuts the limit, and the client does not
-- ask for what comes after.
pub dump_is_cut :
    (from_hex : String → List ℕ) (attestations : List Attestation) (schemas : List SchemaRow)
    (now : ℕ)
    → (d : RegistryDump) × (dump_of from_hex attestations schemas now ≡ got d)
      × (d.schemas
          ≡ map (transform_schema from_hex) (map transform_schema_for_api (take 200 schemas)))
      × (d.attestations
          ≡ map
              (transform_attestation from_hex)
              (map transform_attestation_for_api (take 200 attestations)))
unfolding fetch_registry_dump list_attestations list_attestations_by list_schemas list_schemas_by
    offset_num ledger_param get_attestations get_schemas find_page matches_attestation
    matches_schema
dump_is_cut from_hex attestations schemas now =
    let every_schema =
      filter_all (matches_schema (schema_filters no_schema_query 200 0 any_ledger)) schemas
        (λ r. refl) in
    let every_attestation =
      filter_all (matches_attestation (attestation_filters no_attestation_query 200 0 any_ledger))
        attestations (λ r. refl) in
    (
      record {
        schemas = map (transform_schema from_hex) (map transform_schema_for_api (take 200 schemas));
        attestations =
            map (transform_attestation from_hex)
              (map transform_attestation_for_api (take 200 attestations));
        timestamp = now;
        ledger = largest_ledger (map transform_attestation_for_api (take 200 attestations));
      },
      rw (limit_num_lem, list_schemas_by, list_attestations_by, every_schema, every_attestation)
          refl,
      refl,
      refl,
    )
