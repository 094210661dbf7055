-- ===== src/Schema/Validity.antt =====
-- Which schemas `validateSchema` accepts.
use Prim.Native.String.{String}
use text.Mathlib.TextEquality.{eq_iff}
use attest_so.Prelude.{
  ◌≡◌, refl, ◌≢◌, ◌↔◌, inl, inr, true, false, List, [], ◌∷◌, map, none, any, truthy, ◌is◌,
  Bool-cases, arith, All, All-imp, All-both,
}
use attest_so.Schema.Types.{
  SchemaField, SchemaDefinition, is_valid_stellar_type, validate_fields, validate_parts,
  validate_schema,
}

-- No two texts of the list are equal.
abbrev IsDistinct : List String → Type 0
IsDistinct [] = Unit
IsDistinct (x ∷ xs) = All (λ y. y ≢ x) xs × IsDistinct xs

abbrev pub names : List SchemaField → List String
names fs = map (λ f. SchemaField.name f) fs

-- A field with a name and a known type.
abbrev IsGoodField : SchemaField → Type 0
IsGoodField f = (f.name ≢ "") × (is_valid_stellar_type f.type ≡ true)

pub record IsValid (s : SchemaDefinition) : Type 0 where
  pub named : s.name ≢ ""
  pub some_fields : s.fields ≢ []
  pub good_fields : All IsGoodField s.fields
  pub distinct : IsDistinct (names s.fields)

is-false : (s t : String) → (s is t) ≡ false → s ≢ t
is-false s t h e = cc (h, (eq_iff s t).1 e)

false-is : (s t : String) → s ≢ t → (s is t) ≡ false
false-is s t h = elim (Bool-cases (s is t)) [ inl y ↦ absurd (h ((eq_iff s t).0 y)) | inr n ↦ n ]

truthy_iff : (s : String) → (truthy s ≡ true) ↔ (s ≢ "")
truthy_iff s = (λ h. is-false s "" (ground arith), λ h. rw (false-is s "" h) refl)

unseen_iff :
    (s : String) (seen : List String) → (any (λ n. s is n) seen ≡ false) ↔ All (λ n. s ≢ n) seen
unseen_iff s [] = (λ h. tt, λ h. refl)
unseen_iff s (n ∷ ns) = (
  λ h. elim (Bool-cases (s is n)) [
    | inl y ↦ absurd (cc (rw y at h))
    | inr d ↦ (is-false s n d, (unseen_iff s ns).0 (rw d at h))
  ],
  λ h. rw (false-is s n h.0) ((unseen_iff s ns).1 h.1),
)

-- What the loop accepts, given the names that it has seen.
abbrev IsFineField : List String → SchemaField → Type 0
IsFineField seen f = IsGoodField f × All (λ n. f.name ≢ n) seen

names-All :
    (P : String → Type 0) (fs : List SchemaField)
    → All (λ f. P (SchemaField.name f)) fs ↔ All P (names fs)
names-All P [] = (λ h. tt, λ h. tt)
names-All P (f ∷ fs) = (λ h. (h.0, (names-All P fs).0 h.1), λ h. (h.0, (names-All P fs).1 h.1))

accepted :
    (seen : List String) (fs : List SchemaField)
    → validate_fields seen fs ≡ none
    → All (IsFineField seen) fs × IsDistinct (names fs)
unfolding validate_fields
accepted seen [] h = (tt, tt)
accepted seen (f ∷ fs) h = elim (Bool-cases (truthy f.name)) [
  | inr unnamed ↦ absurd (cc (rw unnamed at h))
  | inl named ↦ elim (Bool-cases (any (λ n. f.name is n) seen)) [
    | inl twice ↦ absurd (cc (rw (named, twice) at h))
    | inr once ↦ elim (Bool-cases (is_valid_stellar_type f.type)) [
      | inr bad ↦ absurd (cc (rw (named, once, bad) at h))
      | inl good ↦
          let (fine, distinct) = accepted (f.name ∷ seen) fs (rw (named, once, good) at h) in
          (
            (
              (((truthy_iff f.name).0 named, good), (unseen_iff f.name seen).0 once),
              All-imp (IsFineField (f.name ∷ seen)) (IsFineField seen) (λ g k. (k.0, k.1.1)) fs
                  fine,
            ),
            (
              (names-All (λ n. n ≢ f.name) fs).0 (
                  All-imp (IsFineField (f.name ∷ seen)) (λ g. g.name ≢ f.name) (λ g k. k.1.0) fs
                    fine),
              distinct,
            ),
          )
    ]
  ]
]

accepts :
    (seen : List String) (fs : List SchemaField)
    → All (IsFineField seen) fs
    → IsDistinct (names fs)
    → validate_fields seen fs ≡ none
unfolding validate_fields
accepts seen [] h d = refl
accepts seen (f ∷ fs) ((good, fresh), h) (other, d) =
    rw ((truthy_iff f.name).1 good.0, (unseen_iff f.name seen).1 fresh, good.1)
      (accepts (f.name ∷ seen) fs
        (All-imp (λ g. IsFineField seen g × (g.name ≢ f.name)) (IsFineField (f.name ∷ seen))
          (λ g k. (k.0.0, (k.1, k.0.1))) fs
          (All-both (IsFineField seen) (λ g. g.name ≢ f.name) fs h
            ((names-All (λ n. n ≢ f.name) fs).1 other)))
        d)

parts_iff :
    (name : String) (fs : List SchemaField)
    → (validate_parts name fs ≡ none)
      ↔ ((name ≢ "") × (fs ≢ []) × All IsGoodField fs × IsDistinct (names fs))
unfolding validate_parts
parts_iff name [] = (
  λ h. elim (Bool-cases (truthy name)) [
    | inl y ↦ absurd (cc (rw y at h))
    | inr n ↦ absurd (cc (rw n at h))
  ],
  λ h. absurd (h.1 refl),
)
parts_iff name (f ∷ fs) = (
  λ h. elim (Bool-cases (truthy name)) [
    | inr n ↦ absurd (cc (rw n at h))
    | inl y ↦
        let (fine, distinct) = accepted [] (f ∷ fs) (rw y at h) in
        (
          (truthy_iff name).0 y,
          (λ e. cc),
          All-imp (IsFineField []) IsGoodField (λ g k. k.0) (f ∷ fs) fine,
          distinct,
        )
  ],
  λ (named, some_fields, good, distinct). rw ((truthy_iff name).1 named) (
      accepts [] (f ∷ fs) (All-imp IsGoodField (IsFineField []) (λ g k. (k, tt)) (f ∷ fs) good)
        distinct),
)

-- `validateSchema` accepts a schema exactly when it has a name and at least one field, every field
-- has a name and a type of the list or a container type, and no two fields have one name.
pub validate_schema-IsValid : (s : SchemaDefinition) → (validate_schema s ≡ none) ↔ IsValid s
unfolding validate_schema
validate_schema-IsValid s = (
  λ h.
      let (named, some_fields, good, distinct) = (parts_iff s.name s.fields).0 h in
      record { named = named; some_fields = some_fields; good_fields = good; distinct = distinct },
  λ v. (parts_iff s.name s.fields).1 (v.named, v.some_fields, v.good_fields, v.distinct),
)
