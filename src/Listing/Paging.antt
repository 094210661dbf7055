-- ===== src/Listing/Paging.antt =====
-- What the pages of a list are.
use Prim.Native.String.{String}
use mathlib.Core.Option.{some_inj}
use attest_so.Prelude.{
  ℕ, zero, suc, ◌+◌, ◌-◌, ◌*◌, ◌≤◌, ◌<◌, min, ◌≡◌, refl, sym, ap, ◌∙◌, ◌↔◌, inl, inr, true, List,
  [], ◌∷◌, ◌++◌, map, Option, none, some, length, take, drop, filter, length-take, length-drop,
  drop-drop, take-take-drop, take_all, ◌==◌, if◌then◌else◌, Option-cases, arith,
}
use attest_so.Registry.Store.{Attestation}
use attest_so.Listing.Params.{
  Parsed, not_a_number, negative, natural, parse_int, LedgerParam, any_ledger, bad_ledger,
  no_such_ledger, at_ledger, limit_num, offset_num, ledger_param, first_given,
}
use attest_so.Listing.Order.{IsNewestFirst, HaveSameRows, newest_first_unique}
use attest_so.Listing.Queries.{
  Db, holding, find_page, AttestationFilters, matches_attestation, get_attestations,
}
use attest_so.Listing.Routes.{
  transform_attestation_for_api, ApiAttestation, Listed, Response, bad_request, not_found, success,
  listed, AttestationQuery, attestation_filters, list_attestations_by, list_attestations,
}

-- A list read page by page: `count` pages of `step` rows, from `offset` on. Each page is a query of its
-- own, which meets the database as it then is.
abbrev pub pages : (ℕ → Db Attestation) → AttestationFilters → ℕ → ℕ → ℕ → List Attestation
pages db f step zero offset = []
pages db f step (suc count) offset =
    (get_attestations (db 0) (record f { limit = some step; offset = some offset })).rows
    ++ pages (λ i. db (suc i)) f step count (offset + step)

pages-take :
    (order : ℕ → List Attestation) (rows : List Attestation) (f : AttestationFilters)
    (step count offset : ℕ)
    → ((i : ℕ) → order i ≡ rows)
    → step ≤ 200
    → pages (λ i. holding (order i)) f step count offset
      ≡ take (count * step) (drop offset (filter (matches_attestation f) rows))
unfolding get_attestations find_page matches_attestation
pages-take order rows f step zero offset same h = let e : 0 * step ≡ 0 = omega arith in rw e refl
pages-take order rows f step (suc count) offset same h =
    let matching = filter (matches_attestation f) rows in
    let e : min step 200 ≡ step = omega arith in
    let e' : suc count * step ≡ step + count * step = grind arith in
    rw (same 0, e, e')
      (ap (λ r. take step (drop offset matching) ++ r)
          (pages-take (λ i. order (suc i)) rows f step count (offset + step) (λ i. same (suc i)) h
            ∙ ap (λ r. take (count * step) r) (sym (drop-drop offset step matching)))
        ∙ take-take-drop step (count * step) (drop offset matching))

-- Pages of one size, up to 200 rows, that are read one behind the other while the rows of the table
-- stay the same, give exactly the attestations that match, each once and from the newest to the oldest,
-- if there are enough pages for their number; given that every attestation has a time of creation and
-- no two have the same, so that each query can see the rows in one order only.
pub pages_cover :
    (order : ℕ → List Attestation) (rows : List Attestation) (f : AttestationFilters)
    (step count : ℕ)
    → IsNewestFirst rows
    → ((i : ℕ) → IsNewestFirst (order i))
    → ((i : ℕ) → HaveSameRows (order i) rows)
    → step ≤ 200
    → length (filter (matches_attestation f) rows) ≤ count * step
    → pages (λ i. holding (order i)) f step count 0 ≡ filter (matches_attestation f) rows
pages_cover order rows f step count sorted ordered held small enough =
    pages-take order rows f step count 0
      (λ i. newest_first_unique (order i) rows (ordered i) sorted (held i)) small
    ∙ take_all (count * step) (filter (matches_attestation f) rows) enough

limit_num_bounds : (text : Option String) (n : ℕ) → limit_num text ≡ some n → (1 ≤ n) × (n ≤ 200)
unfolding limit_num
limit_num_bounds none n h = let e : 50 ≡ n = some_inj.0 h in (omega arith, omega arith)
limit_num_bounds (some text) n h = in_bounds (parse_int text) n h
  where
    in_bounds :
        (p : Parsed) (n : ℕ)
        → elim p [
          | not_a_number ↦ some 50
          | negative ↦ none
          | natural k ↦ some (if k == 0 then 50 else min k 200)
        ]
          ≡ some n
        → (1 ≤ n) × (n ≤ 200)
    in_bounds not_a_number n h = let e : 50 ≡ n = some_inj.0 h in (omega arith, omega arith)
    in_bounds negative n h = absurd (ground arith)
    in_bounds (natural k) n h =
        let e : (if k == 0 then 50 else min k 200) ≡ n = some_inj.0 h in
        (ground arith, ground arith)

length-map : {A B : Type 0} (g : A → B) (xs : List A) → length (map g xs) ≡ length xs
length-map g [] = refl
length-map g (x ∷ xs) = omega (arith, length-map g xs)

abbrev of_success : {A : Type 0} → A → Response A → A
of_success d (bad_request m) = d
of_success d (not_found m) = d
of_success d (success a) = a

-- The page that an answer shows, of the attestations that match the query, where its ledger is `p`.
abbrev IsPageAt : List Attestation → AttestationQuery → LedgerParam → Listed ApiAttestation → Type 0
IsPageAt rows q p l =
    let matching = filter (matches_attestation (attestation_filters q l.limit l.offset p)) rows in
    (1 ≤ l.limit)
    × (l.limit ≤ 200)
    × (l.items ≡ map transform_attestation_for_api (take l.limit (drop l.offset matching)))
    × (l.total ≡ length matching)
    × ((l.has_more ≡ true) ↔ (0 < length (drop (l.offset + l.limit) matching)))

abbrev pub IsPage : List Attestation → AttestationQuery → Listed ApiAttestation → Type 0
IsPage rows q l =
    (limit_num q.limit ≡ some l.limit)
    × (offset_num q.offset ≡ some l.offset)
    × IsPageAt rows q (ledger_param (first_given q.ledger q.by_ledger)) l

listed-IsPageAt :
    (rows : List Attestation) (q : AttestationQuery) (p : LedgerParam) (limit offset : ℕ)
    (l : Listed ApiAttestation)
    → 1 ≤ limit
    → limit ≤ 200
    → let page = get_attestations (holding rows) (attestation_filters q limit offset p) in
      success (listed (map transform_attestation_for_api page.rows) page.total limit offset)
        ≡ success l
      → (limit ≡ l.limit) × (offset ≡ l.offset) × IsPageAt rows q p l
unfolding get_attestations find_page
listed-IsPageAt rows q p limit offset l one most h =
    let matching = filter (matches_attestation (attestation_filters q limit offset p)) rows in
    let shown = take (min limit 200) (drop offset matching) in
    let whole : min limit 200 ≡ limit = omega arith in
    let e = ap (of_success l) h in
    let n = length-map transform_attestation_for_api shown in
    let k = length-take (min limit 200) (drop offset matching) in
    let d = length-drop offset matching in
    let after = length-drop (offset + limit) matching in
    let count : length (map transform_attestation_for_api shown)
        ≡ min limit (length matching - offset) =
      omega arith in
    rw (← e) (
      refl,
      refl,
      (
        one,
        most,
        rw whole refl,
        refl,
        ((λ more. ground (arith, count, after)), (λ beyond. ground (arith, count, after))),
      ),
    )

-- A list of attestations that is answered has the limit and the offset of the query, and the limit
-- lies between 1 and 200. Its items are the page of the matching attestations that these give, its
-- total is the number of matching attestations, and it says that there is more exactly where
-- attestations that match lie beyond the page.
pub list_attestations_bounds :
    (rows : List Attestation) (q : AttestationQuery) (l : Listed ApiAttestation)
    → list_attestations (holding rows) q ≡ success l
    → IsPage rows q l
unfolding list_attestations list_attestations_by
list_attestations_bounds rows q l h = elim (Option-cases (limit_num q.limit)) [
  | inl bad ↦ absurd (cc (rw (bad, list_attestations_by) at h))
  | inr (limit, good) ↦ elim (Option-cases (offset_num q.offset)) [
    | inl bad ↦
        absurd (cc (rw (bad, list_attestations_by) at (rw (good, list_attestations_by) at h)))
    | inr (offset, fine) ↦
        let (one, most) = limit_num_bounds q.limit limit good in
        let (limit_is, offset_is, page) =
          at_ledgers limit offset one most (ledger_param (first_given q.ledger q.by_ledger))
            (rw (fine, list_attestations_by) at (rw (good, list_attestations_by) at h)) in
        (good ∙ ap some limit_is, fine ∙ ap some offset_is, page)
  ]
]
  where
    at_ledgers :
        (limit offset : ℕ)
        → 1 ≤ limit
        → limit ≤ 200
        → (p : LedgerParam)
        → elim p [
          | bad_ledger ↦ bad_request "Invalid ledger parameter. Must be a number."
          | ledger ↦
              let page =
                get_attestations (holding rows) (attestation_filters q limit offset ledger) in
              success (listed (map transform_attestation_for_api page.rows) page.total limit offset)
        ]
          ≡ success l
        → (limit ≡ l.limit) × (offset ≡ l.offset) × IsPageAt rows q p l
    at_ledgers limit offset one most bad_ledger h = absurd (cc h)
    at_ledgers limit offset one most any_ledger h =
        listed-IsPageAt rows q any_ledger limit offset l one most h
    at_ledgers limit offset one most no_such_ledger h =
        listed-IsPageAt rows q no_such_ledger limit offset l one most h
    at_ledgers limit offset one most (at_ledger n) h =
        listed-IsPageAt rows q (at_ledger n) limit offset l one most h
