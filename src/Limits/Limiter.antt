-- ===== src/Limits/Limiter.antt =====
-- apps/horizon/src/common/errors.ts: `RateLimiter`. The map is a function of the key, with the empty
-- list where the key is missing; `now` is what `Date.now()` returns.
use Prim.Native.String.{String}
use attest_so.Prelude.{
  ℕ, ◌+◌, ◌-◌, Bool, true, false, List, [], ◌∷◌, ◌++◌, length, filter, ltb, leb, ◌is◌,
  if◌then◌else◌,
}

abbrev pub Requests : Type 0
Requests = String → List ℕ

abbrev pub set : String → List ℕ → Requests → Requests
set key times requests k = if k is key then times else requests k

-- `now - time < windowMs`; a time that is later than `now` is inside the window, too.
abbrev pub in_window : ℕ → ℕ → ℕ → Bool
in_window now window time = ltb now (window + time)

unfoldable pub can_proceed : String → ℕ → ℕ → ℕ → Requests → Bool × Requests
can_proceed key max_requests window_ms now requests =
    let valid_requests = filter (in_window now window_ms) (requests key) in
    if leb max_requests (length valid_requests)
    then (false, requests)
    else (true, set key (valid_requests ++ now ∷ []) requests)

unfoldable pub get_remaining_requests : String → ℕ → ℕ → ℕ → Requests → ℕ
get_remaining_requests key max_requests window_ms now requests =
    max_requests - length (filter (in_window now window_ms) (requests key))
