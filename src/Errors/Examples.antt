-- ===== src/Errors/Examples.antt =====
-- Runs of packages/stellar-sdk/src/common/errors.ts, and the theorems at such runs.
use attest_so.Prelude.{ℕ, zero, suc, ◌≡◌, refl, none, some}
use attest_so.Errors.Types.{network_error}
use attest_so.Errors.Factory.{foreign, wrap}
use attest_so.Errors.Retry.{
  PartialConfig, default_should_retry, final_config, retry_from, Attempt, returns, throws,
  with_retry,
}
use attest_so.Errors.Attempts.{RetrySpec, with_retry_correct}

-- The second attempt returns.
abbrev second_time : ℕ → Attempt ℕ
second_time zero = returns 0
second_time (suc zero) =
    throws (foreign (record { code = some "ETIMEDOUT"; message = some "slow"; as_text = "slow" }))
second_time (suc (suc n)) = returns 42

abbrev given_nothing : PartialConfig
given_nothing = record {
  max_attempts = none;
  backoff_ms = none;
  max_backoff_ms = none;
  should_retry = none;
}

with_retry_correct_example :
    RetrySpec
      (final_config given_nothing)
      second_time
      3
      1
      (with_retry second_time (λ n. 250) given_nothing)
unfolding final_config
with_retry_correct_example = with_retry_correct second_time (λ n. 250) given_nothing 2 refl

two_calls_are_made : (with_retry second_time (λ n. 250) given_nothing).calls ≡ 2
unfolding with_retry retry_from wrap final_config default_should_retry network_error
two_calls_are_made = refl
