-- ===== src/Operations/Contract.antt =====
-- apps/horizon/src/repository/backfill.repository.ts: `determineContractId`, and the operations of a
-- transaction that belong to one contract.
use Prim.Native.String.{String}
use attest_so.Prelude.{
  ◌or_text◌, ℕ, Bool, false, ◌&&◌, ◌||◌, List, [], ◌∷◌, Option, none, some, filter, any, ◌==◌, ◌is◌,
  truthy, includes, decimal, ◌&◌, if◌then◌else◌,
}
use attest_so.Operations.Types.{Effect, Operation, Parameters, whole, fields}

-- `field === value`
abbrev pub equals : Option String → String → Bool
equals none v = false
equals (some t) v = t is v

-- `field && field.includes(value)`
abbrev pub mentions : Option String → String → Bool
mentions none v = false
mentions (some t) v = truthy t && includes t v

abbrev pub is_type : ℕ → Operation → Bool
is_type n op = elim op.type_i [ none ↦ false | some t ↦ t == n ]

unfoldable pub involves : Operation → String → Bool
involves op c =
    equals op.to c
    || equals op.from c
    || equals op.account c
    || equals op.contract_id c
    || mentions op.function c
    || mentions op.parameters c

unfoldable pub first_where : (String → Bool) → List String → Option String
first_where p [] = none
first_where p (c ∷ cs) = let rest = first_where p cs in if p c then some c else rest

-- An address that is one of the contracts.
unfoldable pub configured : List String → Option String → Option String
configured ids none = none
configured ids (some a) = if truthy a && any (λ c. c is a) ids then some a else none

-- The first of two answers that is one.
infixr 20 ◌or_find◌
abbrev pub ◌or_find◌ : Option String → Option String → Option String
none or_find o = o
some c or_find o = some c

-- The contract that the host function invokes.
unfoldable pub host_address : Operation → Option String
host_address op = elim op.host_function [
  | none ↦ none
  | some h ↦ if h.type is "invoke_contract" then h.contract_address else none
]

unfoldable pub in_effects : List String → List Effect → Option String
in_effects ids [] = none
in_effects ids (e ∷ es) =
    let rest = in_effects ids es in
    if e.type is "contract_credited" || e.type is "contract_debited"
    then configured ids e.contract or_find rest
    else rest

-- `CONTRACT_IDS_TO_INDEX[0] || null`
unfoldable pub fallback : List String → Option String
fallback [] = none
fallback (c ∷ cs) = if truthy c then some c else none

unfoldable pub determine_contract_id : List String → Operation → Option String
determine_contract_id ids op =
    first_where (involves op) ids
    or_find (if is_type 24 op
        then first_where (mentions (op.function or_text op.details_function)) ids
        else none)
    or_find (if is_type 24 op then configured ids (host_address op) else none)
    or_find (if is_type 25 op
        then configured ids (op.contract_id or_text op.contract_address)
        else none)
    or_find in_effects ids op.effects
    or_find fallback ids

abbrev pub belongs_to : List String → String → Operation → Bool
belongs_to ids c op = equals (determine_contract_id ids op) c

-- `fetchOperationsForTransactionAndContract`, on the operations fetched.
unfoldable pub contract_operations : List String → String → List Operation → List Operation
contract_operations ids c ops = filter (belongs_to ids c) ops

unfoldable pub extract_function_name : Operation → Option String
extract_function_name op =
    if is_type 24 op
    then op.function or_text op.details_function or_text none
    else op.type
      or_text some
          (elim op.type_i [ none ↦ "operation_undefined" | some t ↦ "operation_" & decimal t ])

-- The fields of an operation that are present.
unfoldable pub present : List (String × Option String) → List (String × String)
present [] = []
present ((field, none) ∷ rest) = present rest
present ((field, some v) ∷ rest) = (field, v) ∷ present rest

abbrev param_fields : Operation → List (String × Option String)
param_fields op =
    ("amount", op.amount)
    ∷ ("asset", op.asset)
    ∷ ("from", op.from)
    ∷ ("to", op.to)
    ∷ ("account", op.account)
    ∷ ("trustor", op.trustor)
    ∷ ("trustee", op.trustee)
    ∷ []

unfoldable pub extract_parameters : Operation → Option Parameters
extract_parameters op =
    if is_type 24 op
    then elim (op.parameters or_text op.details_parameters or_text none) [
      | none ↦ none
      | some text ↦ some (whole text)
    ]
    else elim (present (param_fields op)) [ [] ↦ none | f ∷ fs ↦ some (fields (f ∷ fs)) ]
