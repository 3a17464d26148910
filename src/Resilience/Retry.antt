-- ===== src/Resilience/Retry.antt =====
-- resilience/retry.py: `RetryPolicy` and the loop of `run_with_retry`. What the loop meets is a
-- parameter: by the number of the attempt, what the operation does, what the clock says and whether
-- the sleep after it is interrupted, and by the number and the base delay, the delay with its random
-- jitter.
pub mod Bounds
use coalestra.Prelude.{
  ℕ, zero, suc, ℤ, pos, ◌+◌, ◌*◌, ◌-◌, ◌^◌, Bool, true, false, Option, none, some, List, [], ◌∷◌,
  min, monus, leb, ltb, ltb_ℤ, not, ◌||◌, ◌&&◌, ◌==◌, if◌then◌else◌,
}
use coalestra.Core.Errors.{
  value_error, runtime_error, Error, is_exception, Result, ok, raise, reject_if, ◌>>◌,
}
use coalestra.Core.Numbers.{Number, finite, is_finite, lt_number, count}

-- The jitter ratio is counted in fractions of one, `whole` of them to one.
pub record RetryPolicy : Type 0 where
  pub max_attempts : ℕ
  pub base_delay_seconds : ℕ
  pub max_delay_seconds : ℕ
  pub jitter_ratio : ℕ

-- RetryPolicy(...) with its `__post_init__`
unfoldable pub retry_policy : ℕ → ℤ → Number → Number → Number → Result RetryPolicy
retry_policy whole attempts base_delay max_delay jitter = do
  reject_if (ltb_ℤ attempts (pos 1)) value_error
  reject_if (not (is_finite base_delay)) value_error
  reject_if (not (is_finite max_delay)) value_error
  reject_if (not (is_finite jitter)) value_error
  reject_if (lt_number base_delay (finite (pos 0)) || lt_number max_delay (finite (pos 0)))
      value_error
  reject_if (lt_number max_delay base_delay) value_error
  reject_if (lt_number jitter (finite (pos 0)) || lt_number (finite (pos whole)) jitter) value_error
  ok (record {
    max_attempts = count (finite attempts);
    base_delay_seconds = count base_delay;
    max_delay_seconds = count max_delay;
    jitter_ratio = count jitter;
  })

abbrev pub base_delay_for : RetryPolicy → ℕ → ℕ
base_delay_for p attempt = min p.max_delay_seconds (p.base_delay_seconds * 2 ^ (attempt - 1))

-- base + random.uniform(-jitter, jitter), kept at 0 or above, is `jittered attempt base`
unfoldable pub delay_for_attempt : (ℕ → ℕ → ℕ) → RetryPolicy → ℕ → ℕ
delay_for_attempt jittered p attempt =
    let base = base_delay_for p attempt in
    if base == 0 || p.jitter_ratio == 0 then base else jittered attempt base

-- What `run_with_retry` is called with, and what it meets. The clock is read once after each failed
-- attempt.
pub record Surroundings (T : Type 0) : Type 0 where
  pub operation : ℕ → Result T
  pub retryable : Error → Bool
  pub deadline_monotonic : Option ℤ
  pub monotonic : ℕ → ℤ
  pub jittered : ℕ → ℕ → ℕ
  pub interruption : ℕ → Option Error

-- What the loop did: the sleeps it began, each with the number of the failed attempt, how many
-- attempts there were, and the value or the error that it ends with.
pub record Outcome (T : Type 0) : Type 0 where
  pub sleeps : List (ℕ × ℕ)
  pub attempts : ℕ
  pub answer : Result T

-- remaining <= 0 or delay >= remaining
unfoldable pub past_deadline : Option ℤ → ℤ → ℕ → Bool
past_deadline none now delay = false
past_deadline (some deadline) now delay =
    let remaining = monus deadline now in leb remaining 0 || leb remaining delay

module _ {T : Type 0} (p : RetryPolicy) (s : Surroundings T) where
  abbrev pub ended : ℕ → Result T → Outcome T
  ended attempt answer = record { sleeps = []; attempts = attempt; answer = answer }

  -- await sleep(delay), which ends or is interrupted, before the rest of the loop
  unfoldable pub slept : ℕ → ℕ → Option Error → Outcome T → Outcome T
  slept attempt delay none rest = record rest { sleeps = (attempt, delay) ∷ rest.sleeps }
  slept attempt delay (some e) rest = record {
    sleeps = (attempt, delay) ∷ [];
    attempts = attempt;
    answer = raise e;
  }

  -- the rest of the loop's body, after the attempt `attempt`; `rest` is the rest of the loop
  unfoldable pub after : ℕ → Outcome T → Result T → Outcome T
  unfolding past_deadline delay_for_attempt slept
  after attempt rest (ok value) = ended attempt (ok value)
  after attempt rest (raise e) =
      let delay = delay_for_attempt s.jittered p attempt in
      if not (is_exception e)
      then ended attempt (raise e)
      else if leb p.max_attempts attempt || not (s.retryable e)
      then ended attempt (raise e)
      else if past_deadline s.deadline_monotonic (s.monotonic attempt) delay
      then ended attempt (raise e)
      else if ltb 0 delay
      then slept attempt delay (s.interruption attempt) rest
      else rest

  after_loop : Option Error → Error
  after_loop none = runtime_error
  after_loop (some last_error) = last_error

  unfoldable pub error_of : Result T → Option Error
  error_of (ok _) = none
  error_of (raise e) = some e

  -- for attempt in range(attempt, attempt + left), and the statements after the loop
  unfoldable pub attempts_from : ℕ → ℕ → Option Error → Outcome T
  unfolding after after_loop error_of
  attempts_from attempt zero last_error = ended (attempt - 1) (raise (after_loop last_error))
  attempts_from attempt (suc left) last_error =
      let result = s.operation attempt in
      after attempt (attempts_from (attempt + 1) left (error_of result)) result

  unfoldable pub run_with_retry : Outcome T
  unfolding attempts_from
  run_with_retry = attempts_from 1 p.max_attempts none
