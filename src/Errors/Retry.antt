-- ===== src/Errors/Retry.antt =====
-- packages/stellar-sdk/src/common/errors.ts: `withRetry`. The operation is a function of the number of
-- the attempt. A pause is the whole number of milliseconds that the timer waits; `jitter n` is the
-- whole part of `Math.random() * 1000` after attempt n.
use attest_so.Prelude.{
  ℕ, zero, suc, ◌+◌, ◌-◌, ◌*◌, ◌^◌, min, Bool, true, false, not, List, [], ◌∷◌, Option, none, some,
  ltb, ◌==◌, ◌or_else◌, if◌then◌else◌,
}
use attest_so.Errors.Types.{
  ErrorClass, network, timeout, rate_limit, validation, not_found, StellarClientError, client_error,
  undefined,
}
use attest_so.Errors.Factory.{Thrown, wrap}

pub record RetryConfig : Type 0 where
  pub max_attempts : ℕ
  pub backoff_ms : ℕ
  pub max_backoff_ms : ℕ
  pub should_retry : Option (StellarClientError → ℕ → Bool)

-- The tests of the default `shouldRetry`, by the class of the error.
unfoldable retries_class : ErrorClass → ℕ → Bool
retries_class network attempt = ltb attempt 3
retries_class timeout attempt = ltb attempt 3
retries_class rate_limit attempt = true
retries_class validation attempt = false
retries_class not_found attempt = false
retries_class _ attempt = false

unfoldable pub default_should_retry : StellarClientError → ℕ → Bool
unfolding retries_class
default_should_retry error attempt = retries_class error.class attempt

unfoldable default_retry_config : RetryConfig
default_retry_config = record {
  max_attempts = 3;
  backoff_ms = 1000;
  max_backoff_ms = 10000;
  should_retry = some default_should_retry;
}

-- A `Partial<RetryConfig>`: a key that is given has a value.
pub record PartialConfig : Type 0 where
  pub max_attempts : Option ℕ
  pub backoff_ms : Option ℕ
  pub max_backoff_ms : Option ℕ
  pub should_retry : Option (StellarClientError → ℕ → Bool)

unfoldable pub final_config : PartialConfig → RetryConfig
unfolding default_retry_config
final_config c = record {
  max_attempts = c.max_attempts or_else default_retry_config.max_attempts;
  backoff_ms = c.backoff_ms or_else default_retry_config.backoff_ms;
  max_backoff_ms = c.max_backoff_ms or_else default_retry_config.max_backoff_ms;
  should_retry = elim c.should_retry [ none ↦ default_retry_config.should_retry | some f ↦ some f ];
}

pub data Attempt (T : Type 0) : Type 0 where
  returns : T → Attempt T
  throws : Thrown → Attempt T

pub data Ended (T : Type 0) : Type 0 where
  value : T → Ended T
  error : StellarClientError → Ended T

-- How `withRetry` ends, how often it called the operation, and how long it paused in between.
pub record Run (T : Type 0) : Type 0 where
  pub ended : Ended T
  pub calls : ℕ
  pub pauses : List ℕ

-- `finalConfig.shouldRetry && !finalConfig.shouldRetry(lastError, attempt)`, the other way round.
abbrev pub wants_retry : RetryConfig → StellarClientError → ℕ → Bool
wants_retry cfg e attempt = elim cfg.should_retry [ none ↦ true | some f ↦ f e attempt ]

unfoldable pub pause_after : RetryConfig → (ℕ → ℕ) → ℕ → ℕ
pause_after cfg jitter attempt =
    min (cfg.backoff_ms * 2 ^ (attempt - 1) + jitter attempt) cfg.max_backoff_ms

module _ {T : Type 0} (cfg : RetryConfig) (jitter : ℕ → ℕ) (operation : ℕ → Attempt T) where
  -- The loop from `attempt` on, with `left` attempts to go. The last of them is the one with the
  -- number `maxAttempts`.
  unfoldable pub retry_from : ℕ → ℕ → Option StellarClientError → Run T
  retry_from zero attempt last = record {
    ended =
        error
          (last or_else client_error "Operation failed after retries" "RETRY_EXHAUSTED" undefined);
    calls = 0;
    pauses = [];
  }
  retry_from (suc left) attempt last = elim (operation attempt) [
    | returns v ↦ record { ended = value v; calls = 1; pauses = [] }
    | throws t ↦
        let e = wrap t none in
        let rest = retry_from left (attempt + 1) (some e) in
        let stopped : Run T = record { ended = error e; calls = 1; pauses = [] } in
        if left == 0
        then stopped
        else if not (wants_retry cfg e attempt)
        then stopped
        else record rest {
          calls = rest.calls + 1;
          pauses = pause_after cfg jitter attempt ∷ rest.pauses;
        }
  ]

unfoldable pub with_retry : {T : Type 0} → (ℕ → Attempt T) → (ℕ → ℕ) → PartialConfig → Run T
unfolding retry_from final_config
with_retry operation jitter config =
    retry_from (final_config config) jitter operation (final_config config).max_attempts 1 none
