-- ===== src/Limits/Examples.antt =====
-- Calls of the rate limiter of apps/horizon/src/common/errors.ts, and the theorems at them.
use Prim.Native.String.{String}
use attest_so.Prelude.{ℕ, ◌≤◌, ◌≡◌, refl, List, [], ◌∷◌, length, filter, arith}
use attest_so.Limits.Limiter.{in_window, can_proceed}
use attest_so.Limits.Window.{serve, limiter_keeps_limit}

-- Two calls in a second are allowed.
abbrev calls : List (String × ℕ)
calls = ("a", 100) ∷ ("a", 200) ∷ ("b", 300) ∷ ("a", 400) ∷ ("a", 1150) ∷ []

the_third_is_refused : serve "a" 2 1000 calls (λ k. []) [] ≡ 100 ∷ 200 ∷ 1150 ∷ []
unfolding serve can_proceed
the_third_is_refused = refl

limiter_keeps_limit_example :
    length (filter (in_window 1150 1000) (serve "a" 2 1000 calls (λ k. []) [])) ≤ 2
limiter_keeps_limit_example =
    limiter_keeps_limit "a" 2 1000 calls 1150
      (omega arith, (omega arith, (omega arith, (omega arith, (omega arith, omega arith)))))
