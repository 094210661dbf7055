-- ===== src/Queue/Backoff/Bounds.antt =====
-- The range of the retry delay.
use native.Mathlib.Nat.{div-add-mod, mod-lt}
use attest_so.Prelude.{ℕ, ◌+◌, ◌*◌, ◌/◌, ◌%◌, ◌^◌, ◌≤◌, ◌<◌, ◌≡◌, refl, max, lt→ltb, arith}
use attest_so.Queue.Types.{IngestQueue, finite}
use attest_so.Queue.Backoff.{
  random_range, overflow, scaled_base, jittered, at_least, compute_backoff_ms,
}

cancel : (d a b : ℕ) → 0 < d → d * a ≤ d * b → a ≤ b
cancel d a b pos h = grind arith

-- The jitter keeps the quotient within a fifth of `base`, rounded down.
jittered_bounds :
    (base r d : ℕ)
    → 0 < d
    → r < d
    → (4 * base ≤ 5 * (base * (4 * d + 2 * r) / (5 * d)) + 5)
      × (5 * (base * (4 * d + 2 * r) / (5 * d)) ≤ 6 * base)
jittered_bounds base r d pos h =
    let n = base * (4 * d + 2 * r) in
    let x = n / (5 * d) in
    let whole : 5 * d * x + n % (5 * d) ≡ n = div-add-mod n (5 * d) in
    let small : n % (5 * d) < 5 * d = mod-lt n (omega arith) in
    let spread : base * r ≤ base * d = grind arith in
    (
      cancel d (4 * base) (5 * x + 5) pos (omega arith),
      cancel d (5 * x) (6 * base) pos (omega arith),
    )

-- While n is below 1024 and base * 2^n is below 2^50, the delay is a finite number of milliseconds for
-- every random number, at least the base delay. It is at most the larger of the base delay and 1.2
-- times the exponential delay base * 2^n, and it is no more than one below 0.8 times that.
pub compute_backoff_ms_bounds :
    (q : IngestQueue) (n r : ℕ)
    → r < random_range
    → n < 1024
    → q.base_backoff_ms * 2 ^ n < 2 ^ 50
    → (d : ℕ) × (compute_backoff_ms q n r ≡ finite d)
      × (q.base_backoff_ms ≤ d)
      × (5 * d ≤ max (5 * q.base_backoff_ms) (6 * (q.base_backoff_ms * 2 ^ n)))
      × (4 * (q.base_backoff_ms * 2 ^ n) ≤ 5 * d + 5)
unfolding compute_backoff_ms scaled_base jittered at_least
compute_backoff_ms_bounds q n r h few small =
    let base = q.base_backoff_ms * 2 ^ n in
    let sum = base * (4 * random_range + 2 * r) / (5 * random_range) in
    let (low, high) = jittered_bounds base r random_range (omega arith) h in
    let below : base < overflow = omega arith in
    let below' : sum < overflow = omega arith in
    (
      max q.base_backoff_ms sum,
      rw (lt→ltb n 1024 few, lt→ltb base overflow below, lt→ltb sum overflow below') refl,
      omega arith,
      omega arith,
      omega arith,
    )
