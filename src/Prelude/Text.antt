-- ===== src/Prelude/Text.antt =====
-- Texts: comparison, and the tests that the source makes of optional values.
use Prim.Native.Nat.{ℕ, zero, suc, ◌/◌, ◌%◌}
use Prim.Native.String
use Prim.Native.String.{String}
use attest_so.Prelude.Tests.{ltb, if◌then◌else◌}
use mathlib.Core.Bool.{Bool, true, false, not}
use mathlib.Core.Option.{Option, none, some}
use text.Mathlib.Text.{◌==◌, find?}

infix 50 ◌is◌
abbrev pub ◌is◌ : String → String → Bool
s is t = s == t

-- The truth value of a text in a test of the source: the empty text is false.
abbrev pub truthy : String → Bool
truthy s = not (s == "")

-- `o ?? d` of the source
infixr 20 ◌or_else◌
abbrev pub ◌or_else◌ {ℓ} : {A : Type ℓ} → Option A → A → A
none or_else d = d
some a or_else d = a

-- `text || d`: an empty text counts as none.
abbrev pub text_or : Option String → String → String
text_or none d = d
text_or (some t) d = if truthy t then t else d

-- `a || b` of two texts that may be absent.
infixr 20 ◌or_text◌
abbrev pub ◌or_text◌ : Option String → Option String → Option String
none or_text o = o
some t or_text o = if truthy t then some t else o

-- `haystack.includes(needle)`
abbrev pub includes : String → String → Bool
includes haystack needle = elim (find? haystack needle) [ none ↦ false | some _ ↦ true ]

abbrev digit : ℕ → String
digit zero = "0"
digit (suc zero) = "1"
digit (suc (suc zero)) = "2"
digit (suc (suc (suc zero))) = "3"
digit (suc (suc (suc (suc zero)))) = "4"
digit (suc (suc (suc (suc (suc zero))))) = "5"
digit (suc (suc (suc (suc (suc (suc zero)))))) = "6"
digit (suc (suc (suc (suc (suc (suc (suc zero))))))) = "7"
digit (suc (suc (suc (suc (suc (suc (suc (suc zero)))))))) = "8"
digit (suc (suc (suc (suc (suc (suc (suc (suc (suc n))))))))) = "9"

-- The digits of `n` in front of `acc`; the fuel bounds their number.
decimal_from : ℕ → ℕ → String → String
decimal_from zero n acc = acc
decimal_from (suc fuel) n acc =
    let more = decimal_from fuel (n / 10) (String.◌++◌ (digit (n % 10)) acc) in
    if ltb n 10 then String.◌++◌ (digit n) acc else more

-- `${n}` for a natural number. A number has at most as many digits as itself and one.
unfoldable pub decimal : ℕ → String
unfolding decimal_from
decimal n = decimal_from (suc n) n ""

infixr 60 ◌&◌
abbrev pub ◌&◌ : String → String → String
s & t = String.◌++◌ s t
