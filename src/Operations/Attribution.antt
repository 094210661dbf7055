-- ===== src/Operations/Attribution.antt =====
-- To which contract an operation is attributed.
use Prim.Native.String.{String}
use text.Mathlib.TextEquality.{eq_iff}
use mathlib.Core.Option.{some_inj}
use attest_so.Prelude.{
  ◌or_text◌, ◌≡◌, refl, ap, ◌⊎◌, inl, inr, Bool, true, false, ◌&&◌, ◌||◌, List, [], ◌∷◌, Option,
  none, some, any, All, Has, ◌is◌, truthy, if◌then◌else◌, Bool-cases, Option-cases, arith,
}
use attest_so.Operations.Types.{Effect, Operation}
use attest_so.Operations.Contract.{
  equals, mentions, is_type, involves, first_where, configured, ◌or_find◌, host_address, in_effects,
  fallback, determine_contract_id,
}

-- The operation names the contract in a field that the code looks at.
abbrev affects : String → Effect → Bool
affects c e = (e.type is "contract_credited" || e.type is "contract_debited") && equals e.contract c

abbrev pub Names : Operation → String → Type 0
Names op c =
    (involves op c ≡ true)
    ⊎ (mentions (op.function or_text op.details_function) c ≡ true)
    ⊎ (host_address op ≡ some c)
    ⊎ (op.contract_id or_text op.contract_address ≡ some c)
    ⊎ Has (λ e. affects c e ≡ true) op.effects

abbrev IsOneOf : List String → String → Type 0
IsOneOf ids c = Has (λ i. i ≡ c) ids

first_where-some :
    (p : String → Bool) (ids : List String) (c : String)
    → first_where p ids ≡ some c
    → (p c ≡ true) × IsOneOf ids c
unfolding first_where
first_where-some p [] c h = absurd (ground arith)
first_where-some p (i ∷ ids) c h = elim (Bool-cases (p i)) [
  | inl hit ↦ let same : i ≡ c = ground (arith, hit) in (rw (← same) hit, inl same)
  | inr miss ↦ let (q, k) = first_where-some p ids c (rw miss at h) in (q, inr k)
]

first_where-none :
    (p : String → Bool) (ids : List String) → first_where p ids ≡ none → All (λ i. p i ≡ false) ids
unfolding first_where
first_where-none p [] h = tt
first_where-none p (i ∷ ids) h = elim (Bool-cases (p i)) [
  | inl hit ↦ absurd (ground (arith, hit))
  | inr miss ↦ (miss, first_where-none p ids (rw miss at h))
]

any-IsOneOf : (ids : List String) (a : String) → any (λ c. c is a) ids ≡ true → IsOneOf ids a
any-IsOneOf [] a h = absurd (ground arith)
any-IsOneOf (i ∷ ids) a h = elim (Bool-cases (i is a)) [
  | inl hit ↦ inl ((eq_iff i a).0 hit)
  | inr miss ↦ inr (any-IsOneOf ids a (rw miss at h))
]

configured-some :
    (ids : List String) (o : Option String) (c : String)
    → configured ids o ≡ some c
    → (o ≡ some c) × IsOneOf ids c
unfolding configured
configured-some ids none c h = absurd (ground arith)
configured-some ids (some a) c h = elim (Bool-cases (truthy a && any (λ x. x is a) ids)) [
  | inr miss ↦ absurd (ground (arith, miss))
  | inl hit ↦
      let same : a ≡ c = ground (arith, hit) in
      (ap (λ x. some x) same, rw (← same) (any-IsOneOf ids a (ground (arith, hit))))
]

-- An answer, if there is one, is a contract that the operation names.
abbrev Sound : List String → Operation → Option String → Type 0
Sound ids op o = (o ≡ none) ⊎ ((c : String) × (o ≡ some c) × IsOneOf ids c × Names op c)

address-Sound :
    (ids : List String) (op : Operation) (o : Option String)
    → ((c : String) → o ≡ some c → Names op c)
    → Sound ids op (configured ids o)
address-Sound ids op o names = elim (Option-cases (configured ids o)) [
  | inl nothing ↦ inl nothing
  | inr (c, found) ↦
      let (same, one) = configured-some ids o c found in inr (c, found, one, names c same)
]

mention-Sound :
    (ids : List String) (op : Operation) (p : String → Bool)
    → ((c : String) → p c ≡ true → Names op c)
    → Sound ids op (first_where p ids)
mention-Sound ids op p names = elim (Option-cases (first_where p ids)) [
  | inl nothing ↦ inl nothing
  | inr (c, found) ↦
      let (holds, one) = first_where-some p ids c found in inr (c, found, one, names c holds)
]

if-Sound :
    (ids : List String) (op : Operation) (b : Bool) (o : Option String)
    → Sound ids op o
    → Sound ids op (if b then o else none)
if-Sound ids op true o h = h
if-Sound ids op false o h = inl refl

effects-Sound :
    (ids : List String) (es : List Effect) (c : String)
    → in_effects ids es ≡ some c
    → Has (λ e. affects c e ≡ true) es × IsOneOf ids c
unfolding in_effects
effects-Sound ids [] c h = absurd (ground arith)
effects-Sound ids (e ∷ es) c h =
    elim (Bool-cases (e.type is "contract_credited" || e.type is "contract_debited")) [
      | inr miss ↦ let (k, one) = effects-Sound ids es c (rw miss at h) in (inr k, one)
      | inl hit ↦ elim (Option-cases (configured ids e.contract)) [
        | inl nothing ↦
            let (k, one) = effects-Sound ids es c (rw (hit, nothing) at h) in (inr k, one)
        | inr (d, found) ↦
            let same : d ≡ c = some_inj.0 (rw (hit, found) at h) in
            let (named, one) = configured-some ids e.contract d found in
            (inl (rw (hit, named, same) ((eq_iff c c).1 refl)), rw (← same) one)
      ]
    ]

-- An answer is a contract; the operation names it, or it is the first one, and no contract is in a
-- field of the operation.
abbrev Final : String → List String → Operation → Option String → Type 0
Final i ids op o =
    (c : String) × (o ≡ some c)
    × IsOneOf (i ∷ ids) c
    × (Names op c ⊎ ((c ≡ i) × All (λ x. involves op x ≡ false) (i ∷ ids)))

then_Final :
    (i : String) (ids : List String) (op : Operation) (first rest : Option String)
    → Sound (i ∷ ids) op first
    → Final i ids op rest
    → Final i ids op (first or_find rest)
then_Final i ids op first rest (inl nothing) h = rw nothing h
then_Final i ids op first rest (inr (c, found, one, named)) h = (c, rw found refl, one, inl named)

-- With contracts to index, the first of which has a name, an operation is attributed to one of them:
-- one that it names, or the first one where no contract stands in the fields that are looked at
-- first. It is never left out, whatever it is about.
pub determine_contract_id_lem :
    (i : String) (ids : List String) (op : Operation)
    → truthy i ≡ true
    → (c : String) × (determine_contract_id (i ∷ ids) op ≡ some c)
      × Has (λ x. x ≡ c) (i ∷ ids)
      × (Names op c ⊎ ((c ≡ i) × All (λ x. involves op x ≡ false) (i ∷ ids)))
unfolding determine_contract_id fallback
determine_contract_id_lem i ids op named =
    elim (Option-cases (first_where (involves op) (i ∷ ids))) [
      | inr (c, found) ↦
          let (holds, one) = first_where-some (involves op) (i ∷ ids) c found in
          (c, rw found refl, one, inl (inl holds))
      | inl nothing ↦ rw nothing (
          then_Final i ids op _ _
            (if-Sound (i ∷ ids) op (is_type 24 op) _
              (mention-Sound (i ∷ ids) op _ (λ c h. inr (inl h))))
            (then_Final i ids op _ _
              (if-Sound (i ∷ ids) op (is_type 24 op) _
                (address-Sound (i ∷ ids) op _ (λ c h. inr (inr (inl h)))))
              (then_Final i ids op _ _
                (if-Sound (i ∷ ids) op (is_type 25 op) _
                  (address-Sound (i ∷ ids) op _ (λ c h. inr (inr (inr (inl h))))))
                (then_Final i ids op _ _ effects (
                  i,
                  rw named refl,
                  inl refl,
                  inr (refl, first_where-none (involves op) (i ∷ ids) nothing),
                )))))
    ]
  where
    effects : Sound (i ∷ ids) op (in_effects (i ∷ ids) op.effects)
    effects = elim (Option-cases (in_effects (i ∷ ids) op.effects)) [
      | inl nothing ↦ inl nothing
      | inr (c, found) ↦
          let (k, one) = effects-Sound (i ∷ ids) op.effects c found in
          inr (c, found, one, inr (inr (inr (inr k))))
    ]
