-- ===== src/Resilience/Policy.antt =====
-- resilience/policy.py: what one circuit breaker is told to do.
use coalestra.Prelude.{ℕ, ℤ, pos, Bool, not, ltb_ℤ}
use coalestra.Core.Errors.{value_error, Result, ok, reject_if, ◌>>◌}
use coalestra.Core.Numbers.{Number, finite, is_finite, lt_number, count}

pub data CircuitScope : Type 0 where
  source namespace subject resource : CircuitScope

unfoldable pub CircuitScope-discrete : Discrete CircuitScope
CircuitScope-discrete = hlevel

-- A threshold is at least 1 and a timeout is finite and not negative once `__post_init__` is done.
pub record CircuitBreakerPolicy : Type 0 where
  pub scope : CircuitScope
  pub failure_threshold : ℕ
  pub recovery_timeout_seconds : ℕ
  pub enabled : Bool

-- CircuitBreakerPolicy(...) with its `__post_init__`
unfoldable pub circuit_breaker_policy :
    CircuitScope → ℤ → Number → Bool → Result CircuitBreakerPolicy
circuit_breaker_policy scope threshold timeout enabled = do
  reject_if (ltb_ℤ threshold (pos 1)) value_error
  reject_if (not (is_finite timeout)) value_error
  reject_if (lt_number timeout (finite (pos 0))) value_error
  ok (record {
    scope = scope;
    failure_threshold = count (finite threshold);
    recovery_timeout_seconds = count timeout;
    enabled = enabled;
  })
