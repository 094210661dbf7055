-- ===== src/Operations/Sharing.antt =====
-- How `fetchOperationsForTransactionAndContract` shares the operations of a transaction out.
use Prim.Native.String.{String}
use text.Mathlib.TextEquality.{eq_iff}
use attest_so.Prelude.{
  ℕ, ◌+◌, ◌≡◌, refl, sym, ◌∙◌, inl, inr, true, false, List, [], ◌∷◌, some, length, All, Has, ◌is◌,
  truthy, if◌then◌else◌, Bool-cases, arith,
}
use attest_so.Operations.Types.{Operation}
use attest_so.Operations.Contract.{determine_contract_id, belongs_to, contract_operations}
use attest_so.Operations.Attribution.{determine_contract_id_lem}

-- No contract is configured twice.
abbrev AreDistinct : List String → Type 0
AreDistinct [] = Unit
AreDistinct (c ∷ cs) = All (λ d. (c is d) ≡ false) cs × AreDistinct cs

-- The number of operations that the contracts `cs` get together.
abbrev pub shares : List String → List String → List Operation → ℕ
shares ids [] ops = 0
shares ids (c ∷ cs) ops = length (contract_operations ids c ops) + shares ids cs ops

abbrev ones : List String → List String → Operation → ℕ
ones ids [] op = 0
ones ids (c ∷ cs) op = (if belongs_to ids c op then 1 else 0) + ones ids cs op

shares-nil : (ids cs : List String) → shares ids cs [] ≡ 0
unfolding contract_operations
shares-nil ids [] = refl
shares-nil ids (c ∷ cs) = omega (arith, shares-nil ids cs)

shares-cons :
    (ids cs : List String) (op : Operation) (ops : List Operation)
    → shares ids cs (op ∷ ops) ≡ ones ids cs op + shares ids cs ops
unfolding contract_operations
shares-cons ids [] op ops = omega arith
shares-cons ids (c ∷ cs) op ops = elim (Bool-cases (belongs_to ids c op)) [
  | inl mine ↦ rw mine (omega (arith, shares-cons ids cs op ops))
  | inr other ↦ rw other (omega (arith, shares-cons ids cs op ops))
]

ones-none :
    (ids cs : List String) (op : Operation) (d : String)
    → determine_contract_id ids op ≡ some d
    → All (λ c. (d is c) ≡ false) cs
    → ones ids cs op ≡ 0
ones-none ids [] op d h k = refl
ones-none ids (c ∷ cs) op d h (differs, k) =
    let here : belongs_to ids c op ≡ false = rw h differs in
    rw here (omega (arith, ones-none ids cs op d h k))

ones-one :
    (ids cs : List String) (op : Operation) (d : String)
    → determine_contract_id ids op ≡ some d
    → AreDistinct cs
    → Has (λ c. c ≡ d) cs
    → ones ids cs op ≡ 1
ones-one ids [] op d h k one = elim one [ ]
ones-one ids (c ∷ cs) op d h (differs, k) (inl same) =
    let here : belongs_to ids c op ≡ true = rw h ((eq_iff d c).1 (sym same)) in
    let rest : All (λ x. (d is x) ≡ false) cs = rw (← same) differs in
    rw here (omega (arith, ones-none ids cs op d h rest))
ones-one ids (c ∷ cs) op d h (differs, k) (inr later) =
    let here : belongs_to ids c op ≡ false = rw h (apart cs d c differs later) in
    rw here (omega (arith, ones-one ids cs op d h k later))
  where
    apart :
        (cs : List String) (d c : String)
        → All (λ x. (c is x) ≡ false) cs
        → Has (λ x. x ≡ d) cs
        → (d is c) ≡ false
    apart [] d c h k = elim k [ ]
    apart (x ∷ xs) d c (p, h) (inl same) = elim (Bool-cases (d is c)) [
      | inr other ↦ other
      | inl hit ↦
          let e : c ≡ x = sym (same ∙ (eq_iff d c).0 hit) in absurd (cc (p, (eq_iff c x).1 e))
    ]
    apart (x ∷ xs) d c (p, h) (inr k) = apart xs d c h k

-- The contracts to index share the operations of a transaction out among them: if no contract is
-- configured twice, and the first has a name, their parts have together as many operations as there
-- are, so that each is in the part of exactly one contract.
pub contract_operations-share :
    (i : String) (ids : List String) (ops : List Operation)
    → truthy i ≡ true
    → AreDistinct (i ∷ ids)
    → shares (i ∷ ids) (i ∷ ids) ops ≡ length ops
contract_operations-share i ids [] named distinct = shares-nil (i ∷ ids) (i ∷ ids)
contract_operations-share i ids (op ∷ ops) named distinct =
    let (d, found, one, why) = determine_contract_id_lem i ids op named in
    omega (
      arith,
      shares-cons (i ∷ ids) (i ∷ ids) op ops,
      ones-one (i ∷ ids) (i ∷ ids) op d found distinct one,
      contract_operations-share i ids ops named distinct,
    )
