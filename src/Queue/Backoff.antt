-- ===== src/Queue/Backoff.antt =====
-- apps/horizon/src/common/queue.ts: `computeBackoffMs`. `Math.random()` is a multiple of 2^-53, here
-- its number `r` of such units. Numbers below the overflow of doubles are taken without rounding:
-- base + jitter is base * 2^n * (0.8 + 0.4 * r / 2^53).
pub mod Bounds
use attest_so.Prelude.{ℕ, ◌+◌, ◌-◌, ◌*◌, ◌/◌, ◌^◌, max, ltb, ◌==◌, if◌then◌else◌}
use attest_so.Queue.Types.{IngestQueue, Delay, finite, infinite, not_a_number}

-- How many values `Math.random()` has.
abbrev pub random_range : ℕ
random_range = 2 ^ 53

-- From here on a double is Infinity.
abbrev pub overflow : ℕ
overflow = 2 ^ 1024 - 2 ^ 970

-- `this.baseBackoffMs * Math.pow(2, n)`. The power is Infinity from 1024 on, and 0 times that is NaN.
unfoldable pub scaled_base : ℕ → ℕ → Delay
scaled_base base n =
    if ltb n 1024
    then if ltb (base * 2 ^ n) overflow then finite (base * 2 ^ n) else infinite
    else if base == 0
    then not_a_number
    else infinite

-- `Math.floor(base + jitter)`. The jitter of Infinity is NaN or -Infinity unless the random number
-- is above 0.5, and the sum is NaN then.
unfoldable pub jittered : Delay → ℕ → Delay
jittered not_a_number r = not_a_number
jittered infinite r = if ltb (2 ^ 52) r then infinite else not_a_number
jittered (finite base) r =
    let sum = base * (4 * random_range + 2 * r) / (5 * random_range) in
    if ltb sum overflow then finite sum else infinite

-- `Math.max`, which is NaN where one of its arguments is.
unfoldable pub at_least : ℕ → Delay → Delay
at_least least (finite d) = finite (max least d)
at_least least infinite = infinite
at_least least not_a_number = not_a_number

unfoldable pub compute_backoff_ms : IngestQueue → ℕ → ℕ → Delay
unfolding scaled_base jittered at_least
compute_backoff_ms q attempt_index r =
    at_least q.base_backoff_ms (jittered (scaled_base q.base_backoff_ms attempt_index) r)
