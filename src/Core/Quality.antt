-- ===== src/Core/Quality.antt =====
-- core/quality.py: timestamps and the policy on observations from the future.
use coalestra.Prelude.{ℕ, ℤ, Bool}
use coalestra.Core.Errors.{value_error, Result, ok, raise, reject_if, ◌>>=◌, ◌>>◌}
use coalestra.Core.Numbers.{Number, finite, lt_number, count}
use coalestra.Core.Models.{zero_seconds}

unfoldable pub require_finite_timestamp : Number → Result ℤ
require_finite_timestamp (finite value) = ok value
require_finite_timestamp _ = raise value_error

pub record ObservationPolicy : Type 0 where
  pub future_tolerance_seconds : ℕ
  pub reject_future_observations : Bool

-- ObservationPolicy(...) with its `__post_init__`
unfoldable pub observation_policy : Number → Bool → Result ObservationPolicy
unfolding require_finite_timestamp
observation_policy tolerance rejects = do
  seconds ← require_finite_timestamp tolerance
  reject_if (lt_number (finite seconds) zero_seconds) value_error
  ok (record {
    future_tolerance_seconds = count (finite seconds);
    reject_future_observations = rejects;
  })
