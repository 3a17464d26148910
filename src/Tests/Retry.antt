-- ===== src/Tests/Retry.antt =====
-- The retry loop: the first attempt fails, and the second answers.
use coalestra.Prelude.{ℕ, zero, suc, pos, ◌+◌, true, none, some, refl, arith, ◌≡◌, [], ◌∷◌}
use coalestra.Core.Errors.{Result, ok, raise, runtime_error, cancelled_error}
use coalestra.Resilience.Retry.{
  RetryPolicy, Surroundings, delay_for_attempt, past_deadline, attempts_from, run_with_retry,
}
use coalestra.Resilience.Retry.Bounds.{IsRun, run_with_retry-IsRun}

abbrev answers : ℕ → Result ℕ
answers zero = raise runtime_error
answers (suc zero) = raise runtime_error
answers (suc (suc n)) = ok n

abbrev policy : RetryPolicy
policy = record {
  max_attempts = 3;
  base_delay_seconds = 2;
  max_delay_seconds = 5;
  jitter_ratio = 1;
}

abbrev surroundings : Surroundings ℕ
surroundings = record {
  operation = answers;
  retryable = λ _. true;
  deadline_monotonic = some (pos 20);
  monotonic = λ n. pos n;
  jittered = λ _ base. base + 1;
  interruption = λ _. none;
}

run_with_retry-IsRun_example : IsRun policy surroundings 1 (run_with_retry policy surroundings)
run_with_retry-IsRun_example = run_with_retry-IsRun policy surroundings (omega arith)

-- one sleep after the first attempt, of the base delay and its jitter
two_attempts :
    run_with_retry policy surroundings
    ≡ record { sleeps = (1, 3) ∷ []; attempts = 2; answer = ok 0 }
unfolding run_with_retry delay_for_attempt past_deadline attempts_from
two_attempts = refl

-- a sleep that is cancelled ends the loop
abbrev cancelled : Surroundings ℕ
cancelled = record surroundings { interruption = λ _. some cancelled_error }

one_attempt :
    run_with_retry policy cancelled
    ≡ record { sleeps = (1, 3) ∷ []; attempts = 1; answer = raise cancelled_error }
unfolding run_with_retry delay_for_attempt past_deadline attempts_from
one_attempt = refl

-- a cancelled operation is not tried again, though `retryable` says so
uncaught :
    run_with_retry policy (record surroundings { operation = λ _. raise cancelled_error })
    ≡ record { sleeps = []; attempts = 1; answer = raise cancelled_error }
unfolding run_with_retry delay_for_attempt past_deadline attempts_from
uncaught = refl
