-- ===== src/Core/Checks.antt =====
-- What the checks of packages/core/src/base.ts let through, and which pages are the last.
use Prim.Native.String.{String}
use attest_so.Prelude.{
  ℕ, ◌+◌, ◌≤◌, ◌<◌, ◌≡◌, refl, ap, ◌↔◌, ◌⊎◌, inl, inr, true, false, List, [], ◌∷◌, ◌++◌, Option,
  none, some, length, take, drop, length-drop, ltb, ltb→lt, lt→ltb, leb, ◌==◌, All, Bool-cases,
  Option-cases, arith,
}
use attest_so.Core.Types.{SchemaDefinition, AttestationDefinition}
use attest_so.Core.Validation.{
  is_missing, missing_error, validate_required, size, validate_schema_definition, expiration_of,
  validate_attestation_definition, create_paginated_response,
}

abbrev pub IsGiven : Option (List ℕ) → Type 0
IsGiven p = is_missing p ≡ false

-- `field` is the first of the fields that is missing.
pub record IsFirstMissing (params : String → Option (List ℕ)) (fields : List String)
    (field : String) : Type 0 where
  pub before : List String
  pub after : List String
  pub whole : fields ≡ before ++ field ∷ after
  pub given : All (λ f. IsGiven (params f)) before
  pub missing : is_missing (params field) ≡ true

-- The check of required parameters passes where all are given, and else names the first that is
-- undefined, null or empty.
validate_required_cases :
    (params : String → Option (List ℕ)) (fields : List String)
    → ((validate_required params fields ≡ none) × All (λ f. IsGiven (params f)) fields)
      ⊎ ((field : String) × (validate_required params fields ≡ some (missing_error field))
          × IsFirstMissing params fields field)
unfolding validate_required
validate_required_cases params [] = inl (refl, tt)
validate_required_cases params (f ∷ fs) = elim (Bool-cases (is_missing (params f))) [
  | inl gone ↦ inr (
    f,
    rw gone refl,
    record { before = []; after = fs; whole = refl; given = tt; missing = gone },
  )
  | inr here ↦ elim (validate_required_cases params fs) [
    | inl (passed, all) ↦ inl (rw here passed, (here, all))
    | inr (field, error, first) ↦ inr (
      field,
      rw here error,
      record {
        before = f ∷ first.before;
        after = first.after;
        whole = ap (λ r. f ∷ r) first.whole;
        given = (here, first.given);
        missing = first.missing;
      },
    )
  ]
]

given-size : (p : Option (List ℕ)) → IsGiven p → (size p == 0) ≡ false
given-size none h = cc
given-size (some []) h = cc
given-size (some (u ∷ us)) h = ground arith

-- A schema definition passes exactly when its name and its content are given and the name has at
-- most 100 code units.
validate_schema_definition_iff :
    (s : SchemaDefinition)
    → (validate_schema_definition s ≡ none)
      ↔ (IsGiven s.name × IsGiven s.content × (size s.name ≤ 100))
unfolding validate_schema_definition validate_required
validate_schema_definition_iff s = (forth, back)
  where
    forth :
        validate_schema_definition s ≡ none
        → IsGiven s.name × IsGiven s.content × (size s.name ≤ 100)
    forth h = elim (Bool-cases (is_missing s.name)) [
      | inl gone ↦ absurd (cc (rw gone at h))
      | inr named ↦ elim (Bool-cases (is_missing s.content)) [
        | inl gone ↦ absurd (cc (rw (named, gone) at h))
        | inr filled ↦ elim (Bool-cases (ltb 100 (size s.name))) [
          | inl long ↦ absurd (cc (rw (named, filled, long) at h))
          | inr short ↦ (named, filled, ground arith)
        ]
      ]
    ]

    back :
        IsGiven s.name × IsGiven s.content × (size s.name ≤ 100)
        → validate_schema_definition s ≡ none
    back (named, filled, short) =
        let fits : ltb 100 (size s.name) ≡ false = ground arith in
        rw (named, filled) (rw (fits, given-size s.content filled) refl)

-- An attestation definition passes exactly when the schema, the subject and the data are given and
-- the expiration, if there is one that is a number, lies in the future. A text that is no number
-- passes.
pub validate_attestation_definition_iff :
    (parse_int : List ℕ → Option ℕ) (now : ℕ) (a : AttestationDefinition)
    → (validate_attestation_definition parse_int now a ≡ none) ↔ (
        IsGiven a.schema_uid
        × IsGiven a.subject
        × IsGiven a.data_text
        × ((t : ℕ) → expiration_of parse_int a.expiration_time ≡ some t → now < t))
unfolding validate_attestation_definition validate_required
validate_attestation_definition_iff parse_int now a = (forth, back)
  where
    forth :
        validate_attestation_definition parse_int now a ≡ none
        → IsGiven a.schema_uid
          × IsGiven a.subject
          × IsGiven a.data_text
          × ((t : ℕ) → expiration_of parse_int a.expiration_time ≡ some t → now < t)
    forth h = elim (Bool-cases (is_missing a.schema_uid)) [
      | inl gone ↦ absurd (cc (rw gone at h))
      | inr uid ↦ elim (Bool-cases (is_missing a.subject)) [
        | inl gone ↦ absurd (cc (rw (uid, gone) at h))
        | inr subject ↦ elim (Bool-cases (is_missing a.data_text)) [
          | inl gone ↦ absurd (cc (rw (uid, subject, gone) at h))
          | inr filled ↦ (
            uid,
            subject,
            filled,
            λ t e. elim (Bool-cases (leb t now)) [
              | inl late ↦ absurd (cc (rw late at (rw (uid, subject, filled, e) at h)))
              | inr early ↦ ground arith
            ],
          )
        ]
      ]
    ]

    back :
        IsGiven a.schema_uid
          × IsGiven a.subject
          × IsGiven a.data_text
          × ((t : ℕ) → expiration_of parse_int a.expiration_time ≡ some t → now < t)
        → validate_attestation_definition parse_int now a ≡ none
    back (uid, subject, filled, future) =
        elim (Option-cases (expiration_of parse_int a.expiration_time)) [
          | inl never ↦ rw (uid, subject, filled) (rw never refl)
          | inr (t, e) ↦
              let early : leb t now ≡ false = ground (arith, future t e) in
              rw (uid, subject, filled) (rw e (rw early refl))
        ]

-- If a page is what the listing holds from the offset on, up to the limit, then it says that there
-- is more exactly when something is left behind it.
create_paginated_response_more :
    {T : Type 0} (all : List T) (limit offset : ℕ)
    → let page = take limit (drop offset all) in
      ((create_paginated_response page (length all) limit offset).has_more ≡ true)
      ↔ (0 < length (drop (offset + length page) all))
unfolding create_paginated_response
create_paginated_response_more all limit offset =
    let n = offset + length (take limit (drop offset all)) in
    (
      λ h. omega (arith, length-drop n all, ltb→lt n (length all) h),
      λ h. lt→ltb n (length all) (omega (arith, length-drop n all)),
    )
