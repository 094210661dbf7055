-- ===== src/Listing/Params.antt =====
-- The language's `parseInt` on a text of a query, and the parameters of the list routes of
-- apps/horizon/src/router/registry.router.ts.
use Prim.Native.String.{String, [], ◌∷◌}
use Prim.Native.Char.{Char, code}
use attest_so.Prelude.{
  ℕ, zero, suc, ◌+◌, ◌-◌, ◌*◌, min, ◌≡◌, refl, Bool, true, false, ◌&&◌, ◌||◌, Option, none, some,
  leb, ◌==◌, truthy, if◌then◌else◌,
}

pub data Parsed : Type 0 where
  not_a_number negative : Parsed
  natural : ℕ → Parsed

abbrev between : ℕ → ℕ → ℕ → Bool
between low high n = leb low n && leb n high

-- The digit that a character is: 0 to 9, and a to f in either case for the radix 16.
digit_value : Bool → Char → Option ℕ
digit_value hex c =
    if between 48 57 (code c)
    then some (code c - 48)
    else if hex && between 97 102 (code c)
    then some (code c - 87)
    else if hex && between 65 70 (code c)
    then some (code c - 55)
    else none

-- The value of the digits at the front of a text, onto what came before them.
digits_onto : Bool → ℕ → ℕ → String → ℕ
unfolding digit_value
digits_onto hex radix acc [] = acc
digits_onto hex radix acc (c ∷ s) = elim (digit_value hex c) [
  | none ↦ acc
  | some d ↦ digits_onto hex radix (acc * radix + d) s
]

parse_radix : Bool → ℕ → String → Option ℕ
unfolding digit_value digits_onto
parse_radix hex radix [] = none
parse_radix hex radix (c ∷ s) = elim (digit_value hex c) [
  | none ↦ none
  | some d ↦ some (digits_onto hex radix d s)
]

-- After the sign: a text that begins with `0x` has the radix 16.
parse_unsigned : String → Option ℕ
unfolding parse_radix
parse_unsigned [] = none
parse_unsigned (c ∷ []) = parse_radix false 10 (c ∷ [])
parse_unsigned (c ∷ (d ∷ s)) =
    if code c == 48 && (code d == 120 || code d == 88)
    then parse_radix true 16 s
    else parse_radix false 10 (c ∷ (d ∷ s))

abbrev from_unsigned : Option ℕ → Parsed
from_unsigned none = not_a_number
from_unsigned (some n) = natural n

abbrev negated : Option ℕ → Parsed
negated none = not_a_number
negated (some zero) = natural 0
negated (some (suc n)) = negative

unfoldable pub parse_int : String → Parsed
unfolding parse_unsigned
parse_int [] = not_a_number
parse_int (c ∷ s) =
    let later = parse_int s in
    if code c == 32 || between 9 13 (code c)
    then later
    else if code c == 45
    then negated (parse_unsigned s)
    else if code c == 43
    then from_unsigned (parse_unsigned s)
    else from_unsigned (parse_unsigned (c ∷ s))

-- `Math.min(parseInt(limit) || 50, 200)`, and no number where it is below 1.
unfoldable pub limit_num : Option String → Option ℕ
unfolding parse_int
limit_num none = some 50
limit_num (some text) = elim (parse_int text) [
  | not_a_number ↦ some 50
  | negative ↦ none
  | natural n ↦ some (if n == 0 then 50 else min n 200)
]

-- `parseInt(offset) || 0`, and no number where it is below 0.
unfoldable pub offset_num : Option String → Option ℕ
unfolding parse_int
offset_num none = some 0
offset_num (some text) = elim (parse_int text) [
  | not_a_number ↦ some 0
  | negative ↦ none
  | natural n ↦ some n
]

-- `a ?? b`
abbrev pub first_given : Option String → Option String → Option String
first_given none b = b
first_given (some a) b = some a

-- A ledger to look for: none is asked for, it is no number, or it is one.
pub data LedgerParam : Type 0 where
  any_ledger bad_ledger no_such_ledger : LedgerParam
  at_ledger : ℕ → LedgerParam

unfoldable pub ledger_param : Option String → LedgerParam
unfolding parse_int
ledger_param none = any_ledger
ledger_param (some text) =
    if truthy text
    then elim (parse_int text) [
      | not_a_number ↦ bad_ledger
      | negative ↦ no_such_ledger
      | natural n ↦ at_ledger n
    ]
    else any_ledger

-- A limit of 1000 is cut to 200.
pub limit_num_lem : limit_num (some "1000") ≡ some 200
unfolding limit_num parse_int parse_unsigned parse_radix digits_onto digit_value
limit_num_lem = refl
