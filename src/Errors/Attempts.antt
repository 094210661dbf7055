-- ===== src/Errors/Attempts.antt =====
-- How `withRetry` ends, what it called, and how long it paused.
use attest_so.Prelude.{
  ℕ, zero, suc, ◌+◌, ◌-◌, ◌≤◌, ◌<◌, ◌≡◌, refl, sym, subst, ◌⊎◌, inl, inr, Bool, true, false, [],
  ◌∷◌, Option, none, some, All, length, arith, Bool-cases, ◌==◌,
}
use attest_so.Errors.Types.{StellarClientError}
use attest_so.Errors.Factory.{Thrown, wrap}
use attest_so.Errors.Retry.{
  RetryConfig, Attempt, returns, throws, Ended, value, error, Run, wants_retry, pause_after,
  retry_from, PartialConfig, final_config, with_retry,
}

module _ {T : Type 0} (cfg : RetryConfig) (operation : ℕ → Attempt T) where
  -- Attempt n threw an error that is to be tried again.
  abbrev Retried : ℕ → Type 0
  Retried n = (t : Thrown) × (operation n ≡ throws t) × (wants_retry cfg (wrap t none) n ≡ true)

  -- Attempt n is the last: it returned the value, or threw the error, which was the last allowed
  -- or is not to be tried again.
  abbrev IsLast : ℕ → Bool → Ended T → Type 0
  IsLast n exhausted (value v) = operation n ≡ returns v
  IsLast n exhausted (error e) =
      (t : Thrown) × (operation n ≡ throws t)
      × (e ≡ wrap t none)
      × ((exhausted ≡ true) ⊎ (wants_retry cfg e n ≡ false))

  -- A run of the loop from `attempt` on with `left` attempts to go.
  pub record RetrySpec (left attempt : ℕ) (run : Run T) : Type 0 where
    pub called : 1 ≤ run.calls
    pub limited : run.calls ≤ left
    pub paused : length run.pauses + 1 ≡ run.calls
    pub short_pauses : All (λ p. p ≤ cfg.max_backoff_ms) run.pauses
    pub before : (i : ℕ) → suc i < run.calls → Retried (attempt + i)
    pub last : IsLast (attempt + (run.calls - 1)) (run.calls == left) run.ended

module _ {T : Type 0} (cfg : RetryConfig) (jitter : ℕ → ℕ) (operation : ℕ → Attempt T) where
  stopped_spec :
      (left attempt : ℕ) (t : Thrown)
      → operation attempt ≡ throws t
      → ((1 == suc left) ≡ true) ⊎ (wants_retry cfg (wrap t none) attempt ≡ false)
      → RetrySpec cfg operation
          (suc left)
          attempt
          (record { ended = error (wrap t none); calls = 1; pauses = [] })
  stopped_spec left attempt t threw why =
      let same : attempt + (1 - 1) ≡ attempt = omega arith in
      record {
        called = omega arith;
        limited = omega arith;
        paused = omega arith;
        short_pauses = tt;
        before = λ i h. absurd (omega arith);
        last = rw same (t, threw, refl, why);
      }

  more_spec :
      (left attempt : ℕ) (t : Thrown) (rest : Run T)
      → operation attempt ≡ throws t
      → wants_retry cfg (wrap t none) attempt ≡ true
      → RetrySpec cfg operation left (attempt + 1) rest
      → RetrySpec cfg operation (suc left) attempt (record rest {
        calls = rest.calls + 1;
        pauses = pause_after cfg jitter attempt ∷ rest.pauses;
      })
  unfolding pause_after
  more_spec left attempt t rest threw again s =
      let at_end : attempt + 1 + (rest.calls - 1) ≡ attempt + (rest.calls + 1 - 1) =
        omega (arith, s.called) in
      let spent : (rest.calls == left) ≡ (rest.calls + 1 == suc left) = ground arith in
      record {
        called = omega arith;
        limited = omega (arith, s.limited);
        paused = omega (arith, s.paused);
        short_pauses = (omega arith, s.short_pauses);
        before = before_more;
        last =
            subst (λ n. IsLast cfg operation n (rest.calls + 1 == suc left) rest.ended) at_end
              (subst (λ b. IsLast cfg operation (attempt + 1 + (rest.calls - 1)) b rest.ended) spent
                s.last);
      }
    where
      before_more : (i : ℕ) → suc i < rest.calls + 1 → Retried cfg operation (attempt + i)
      before_more zero h =
          let same : attempt + 0 ≡ attempt = omega arith in rw same (t, threw, again)
      before_more (suc j) h =
          let same : attempt + 1 + j ≡ attempt + suc j = omega arith in
          subst (Retried cfg operation) same (s.before j (omega arith))

  returned_spec :
      (left attempt : ℕ) (v : T)
      → operation attempt ≡ returns v
      → RetrySpec cfg operation
          (suc left)
          attempt
          (record { ended = value v; calls = 1; pauses = [] })
  returned_spec left attempt v returned =
      let same : attempt + (1 - 1) ≡ attempt = omega arith in
      record {
        called = omega arith;
        limited = omega arith;
        paused = omega arith;
        short_pauses = tt;
        before = λ i h. absurd (omega arith);
        last = rw same returned;
      }

  step_spec :
      (left attempt : ℕ) (last : Option StellarClientError)
      → ((k : ℕ) (l : Option StellarClientError)
          → left ≡ suc k
          → RetrySpec cfg operation left
              (attempt + 1)
              (retry_from cfg jitter operation left (attempt + 1) l))
      → (a : Attempt T) → operation attempt ≡ a
      → RetrySpec cfg operation
          (suc left)
          attempt
          (retry_from cfg jitter operation (suc left) attempt last)
  unfolding retry_from
  step_spec left attempt last ih (returns v) e = rw (e, retry_from) (returned_spec left attempt v e)
  step_spec zero attempt last ih (throws t) e =
      rw (e, retry_from) (stopped_spec zero attempt t e (inl refl))
  step_spec (suc k) attempt last ih (throws t) e =
      let others : (suc k == 0) ≡ false = ground arith in
      elim (Bool-cases (wants_retry cfg (wrap t none) attempt)) [
        | inl again ↦
            rw (e, retry_from)
              (rw (others, again)
                (more_spec (suc k) attempt t _ e again (ih k (some (wrap t none)) refl)))
        | inr stop ↦
            rw (e, retry_from) (rw (others, stop) (stopped_spec (suc k) attempt t e (inr stop)))
      ]

  retry_from_spec :
      (left attempt : ℕ) (last : Option StellarClientError)
      → RetrySpec cfg operation
          (suc left)
          attempt
          (retry_from cfg jitter operation (suc left) attempt last)
  retry_from_spec zero attempt last =
      step_spec zero attempt last (λ k l e. absurd (omega arith)) (operation attempt) refl
  retry_from_spec (suc left) attempt last =
      step_spec (suc left) attempt last (λ k l e. retry_from_spec left (attempt + 1) l)
        (operation attempt) refl

-- With at least one attempt allowed, `withRetry` calls the operation at least once and at most as
-- often as allowed, pauses once between two calls and never longer than the maximal backoff. Every
-- attempt but the last threw an error that the configuration retries. The last returned the value
-- that the run returns, or threw the error that it throws, wrapped; and then no attempt was left or
-- the configuration does not retry that error.
pub with_retry_correct :
    {T : Type 0} (operation : ℕ → Attempt T) (jitter : ℕ → ℕ) (config : PartialConfig) (n : ℕ)
    → (final_config config).max_attempts ≡ suc n
    → RetrySpec (final_config config) operation (suc n) 1 (with_retry operation jitter config)
unfolding with_retry
with_retry_correct operation jitter config n e =
    subst
      (λ m.
        RetrySpec (final_config config) operation (suc n) 1
          (retry_from (final_config config) jitter operation m 1 none))
      (sym e) (retry_from_spec (final_config config) jitter operation n 1 none)
