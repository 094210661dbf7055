-- ===== src/Ingest/Ordering.antt =====
-- The order of the events is a rearrangement of them.
use native.Mathlib.Nat.{ℕ_set}
use mathlib.Core.Logic.{∥∥₁_elim}
use mathlib.Core.List.{Perm, Permᴰ, perm_middle}
use mathlib.Core.List.Perm
use Prim.Native.String.{String}
use text.Mathlib.TextEquality.{eq_iff}
use attest_so.Prelude.{
  suc, ◌≡◌, refl, ap, ◌∙◌, ◌⊎◌, inl, inr, Bool, true, false, not, ◌&&◌, ◌||◌, List, [], ◌∷◌, ◌++◌,
  filter, ◌is◌, includes, Bool-cases, length, All, All-append_left, All-append_right,
}
use attest_so.Ingest.Events.{
  EventData, is_schema_event, is_attestation_event, is_bls_key_event, is_other_event,
  ordered_events,
}

-- Exactly one of four tests passes.
abbrev OneOf : Bool → Bool → Bool → Bool → Type 0
OneOf a b c d =
    ((a ≡ true) × (b ≡ false) × (c ≡ false) × (d ≡ false))
    ⊎ ((a ≡ false) × (b ≡ true) × (c ≡ false) × (d ≡ false))
    ⊎ ((a ≡ false) × (b ≡ false) × (c ≡ true) × (d ≡ false))
    ⊎ ((a ≡ false) × (b ≡ false) × (c ≡ false) × (d ≡ true))

module _ {A : Type 0} (a b c d : A → Bool) (one : (x : A) → OneOf (a x) (b x) (c x) (d x)) where
  filters-perm :
      (xs : List A) → Perm (filter a xs ++ (filter b xs ++ (filter c xs ++ filter d xs))) xs
  filters-perm [] = Perm.refl []
  filters-perm (x ∷ xs) = elim (one x) [
    | inl (p, q, r, s) ↦ rw (p, q, r, s) (Perm.cons x (filters-perm xs))
    | inr (inl (p, q, r, s)) ↦
        rw (p, q, r, s) (Perm.trans (perm_middle (filter a xs) _) (Perm.cons x (filters-perm xs)))
    | inr (inr (inl (p, q, r, s))) ↦
        rw (p, q, r, s)
          (Perm.trans
            (Perm.trans (Perm.append_left (filter a xs) (perm_middle (filter b xs) _))
              (perm_middle (filter a xs) _))
            (Perm.cons x (filters-perm xs)))
    | inr (inr (inr (p, q, r, s))) ↦
        rw (p, q, r, s)
          (Perm.trans
            (Perm.trans
              (Perm.append_left (filter a xs) (
                Perm.trans (Perm.append_left (filter b xs) (perm_middle (filter c xs) _))
                  (perm_middle (filter b xs) _)))
              (perm_middle (filter a xs) _))
            (Perm.cons x (filters-perm xs)))
  ]

module _ {A : Type 0} (a b c d : A → Bool) (one : (x : A) → OneOf (a x) (b x) (c x) (d x)) where
  -- What holds of all that pass one of the tests holds of all.
  filters-All :
      (P : A → Type 0) (xs : List A)
      → All P (filter a xs)
      → All P (filter b xs)
      → All P (filter c xs)
      → All P (filter d xs)
      → All P xs
  filters-All P [] ha hb hc hd = tt
  filters-All P (x ∷ xs) ha hb hc hd = elim (one x) [
    | inl (p, q, r, s) ↦
        let (px, rest) = rw p at ha in
        (px, filters-All P xs rest (rw q at hb) (rw r at hc) (rw s at hd))
    | inr (inl (p, q, r, s)) ↦
        let (px, rest) = rw q at hb in
        (px, filters-All P xs (rw p at ha) rest (rw r at hc) (rw s at hd))
    | inr (inr (inl (p, q, r, s))) ↦
        let (px, rest) = rw r at hc in
        (px, filters-All P xs (rw p at ha) (rw q at hb) rest (rw s at hd))
    | inr (inr (inr (p, q, r, s))) ↦
        let (px, rest) = rw s at hd in
        (px, filters-All P xs (rw p at ha) (rw q at hb) (rw r at hc) rest)
  ]

-- The four classes, of the name of an event's type.
abbrev KindOf : String → Type 0
KindOf t =
    OneOf (t is "SCHEMA:REGISTER" || t is "SCHEMA:CREATE")
      (t is "ATTEST:CREATE" || t is "ATTEST:REVOKE")
      (t is "BLS_KEY:REGISTER" || includes t "BLS_KEY")
      (not (t is "SCHEMA:REGISTER")
        && not (t is "SCHEMA:CREATE")
        && not (t is "ATTEST:CREATE")
        && not (t is "ATTEST:REVOKE")
        && not (includes t "BLS_KEY"))

named-KindOf : (t name : String) → (t is name) ≡ true → KindOf name → KindOf t
named-KindOf t name e k = rw ((eq_iff t name).0 e) k

one_kind_text : (t : String) → KindOf t
one_kind_text t = elim (Bool-cases (t is "SCHEMA:REGISTER")) [
  | inl e ↦ named-KindOf t "SCHEMA:REGISTER" e (inl (refl, refl, refl, refl))
  | inr n1 ↦ elim (Bool-cases (t is "SCHEMA:CREATE")) [
    | inl e ↦ named-KindOf t "SCHEMA:CREATE" e (inl (refl, refl, refl, refl))
    | inr n2 ↦ elim (Bool-cases (t is "ATTEST:CREATE")) [
      | inl e ↦ named-KindOf t "ATTEST:CREATE" e (inr (inl (refl, refl, refl, refl)))
      | inr n3 ↦ elim (Bool-cases (t is "ATTEST:REVOKE")) [
        | inl e ↦ named-KindOf t "ATTEST:REVOKE" e (inr (inl (refl, refl, refl, refl)))
        | inr n4 ↦ elim (Bool-cases (t is "BLS_KEY:REGISTER")) [
          | inl e ↦ named-KindOf t "BLS_KEY:REGISTER" e (inr (inr (inl (refl, refl, refl, refl))))
          | inr n5 ↦ elim (Bool-cases (includes t "BLS_KEY")) [
            | inl k ↦ rw (n1, n2, n3, n4, n5, k) (inr (inr (inl (refl, refl, refl, refl))))
            | inr k ↦ rw (n1, n2, n3, n4, n5, k) (inr (inr (inr (refl, refl, refl, refl))))
          ]
        ]
      ]
    ]
  ]
]

-- The order in which the events of an answer are processed is a rearrangement of them: each event
-- is processed, and none twice.
pub ordered_events-perm : (es : List EventData) → Perm (ordered_events es) es
unfolding ordered_events
ordered_events-perm es =
    filters-perm is_schema_event is_attestation_event is_bls_key_event is_other_event
      (λ e. one_kind_text e.event_type) es

-- What holds of all events in their order holds of all.
pub All-ordered_events :
    (P : EventData → Type 0) (es : List EventData) → All P (ordered_events es) → All P es
unfolding ordered_events
All-ordered_events P es h =
    let ha = All-append_left P (filter is_schema_event es) _ h in
    let h₁ = All-append_right P (filter is_schema_event es) _ h in
    let hb = All-append_left P (filter is_attestation_event es) _ h₁ in
    let h₂ = All-append_right P (filter is_attestation_event es) _ h₁ in
    filters-All is_schema_event is_attestation_event is_bls_key_event is_other_event
      (λ e. one_kind_text e.event_type) P es ha hb
      (All-append_left P (filter is_bls_key_event es) _ h₂)
      (All-append_right P (filter is_bls_key_event es) _ h₂)

length-of_permᴰ : {A : Type 0} {xs ys : List A} → Permᴰ xs ys → length xs ≡ length ys
length-of_permᴰ Permᴰ.nil = refl
length-of_permᴰ (Permᴰ.cons e p) = ap suc (length-of_permᴰ p)
length-of_permᴰ (Permᴰ.swap e f) = refl
length-of_permᴰ (Permᴰ.trans p q) = length-of_permᴰ p ∙ length-of_permᴰ q

pub length-of_perm : {A : Type 0} {xs ys : List A} → Perm xs ys → length xs ≡ length ys
length-of_perm p = ∥∥₁_elim p (ℕ_set _ _) length-of_permᴰ
