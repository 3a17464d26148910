-- ===== src/Resilience/Breaker/Operations.antt =====
-- resilience/circuit_breaker.py: the operations, each with its early returns and errors. An
-- operation that raises leaves the breaker as the code does.
use coalestra.Prelude.{ℤ, Option, none, some, [], if◌then◌else◌}
use coalestra.Dict.{lookup, pop}
use coalestra.Core.Errors.{Result, ok, raise, ◌>>=◌}
use coalestra.Resilience.Policy.{CircuitBreakerPolicy}
use coalestra.Resilience.Breaker.{
  CircuitState, closed, CircuitIdentity, CircuitIdentity-discrete, Circuit, CircuitBreaker, Texts,
  Target, resolved_policy, identity_of, circuit_at, update, admit, succeed, fail, abandon, skip,
}

module _ (t : Texts) where
  enter :
      CircuitBreaker
      → CircuitIdentity
      → Circuit × Result (Unit {0})
      → CircuitBreaker × Result CircuitIdentity
  enter b i (c, ok _) = (update b i c, ok i)
  enter b i (c, raise e) = (update b i c, raise e)

  call_at :
      CircuitBreaker
      → ℤ
      → CircuitBreakerPolicy
      → Result CircuitIdentity
      → CircuitBreaker × Result CircuitIdentity
  unfolding enter
  call_at b now p (raise e) = (b, raise e)
  call_at b now p (ok i) =
      let c = circuit_at b i in
      if p.enabled then enter b i (admit now p.recovery_timeout_seconds c.state c) else (b, ok i)

  unfoldable pub before_call : CircuitBreaker → ℤ → Target → CircuitBreaker × Result CircuitIdentity
  unfolding call_at
  before_call b now target = call_at b now (resolved_policy b target) (identity_of t b target)

  -- what record_success and record_failure do once their policy is enabled: `change` to the
  -- circuit of the identity, which is made when there is none
  change_at :
      CircuitBreaker
      → (Circuit → Circuit)
      → Result CircuitIdentity
      → CircuitBreaker × Result (Unit {0})
  change_at b change (raise e) = (b, raise e)
  change_at b change (ok i) = (update b i (change (circuit_at b i)), ok tt)

  update_found :
      CircuitBreaker → (Circuit → Circuit) → CircuitIdentity → Option Circuit → CircuitBreaker
  update_found b change i none = b
  update_found b change i (some c) = update b i (change c)

  -- what record_abandoned and record_skipped do then: no circuit is made
  release_at :
      CircuitBreaker
      → (Circuit → Circuit)
      → Result CircuitIdentity
      → CircuitBreaker × Result (Unit {0})
  unfolding update_found
  release_at b change (raise e) = (b, raise e)
  release_at b change (ok i) =
      (update_found b change i (lookup CircuitIdentity-discrete i b.circuits), ok tt)

  unfoldable pub record_success : CircuitBreaker → Target → CircuitBreaker × Result (Unit {0})
  unfolding change_at
  record_success b target =
      if (resolved_policy b target).enabled
      then change_at b succeed (identity_of t b target)
      else (b, ok tt)

  unfoldable pub record_failure : CircuitBreaker → ℤ → Target → CircuitBreaker × Result (Unit {0})
  unfolding change_at
  record_failure b now target =
      let p = resolved_policy b target in
      if p.enabled
      then change_at b (fail now p.failure_threshold) (identity_of t b target)
      else (b, ok tt)

  unfoldable pub record_abandoned : CircuitBreaker → ℤ → Target → CircuitBreaker × Result (Unit {0})
  unfolding release_at
  record_abandoned b now target =
      if (resolved_policy b target).enabled
      then release_at b (abandon now) (identity_of t b target)
      else (b, ok tt)

  unfoldable pub record_skipped : CircuitBreaker → Target → CircuitBreaker × Result (Unit {0})
  unfolding release_at
  record_skipped b target =
      if (resolved_policy b target).enabled
      then release_at b skip (identity_of t b target)
      else (b, ok tt)

  state_at : CircuitBreaker → Result CircuitIdentity → Result CircuitState
  state_at b found = do i ← found; ok (circuit_at b i).state

  unfoldable pub state_for : CircuitBreaker → Target → Result CircuitState
  unfolding state_at
  state_for b target =
      if (resolved_policy b target).enabled then state_at b (identity_of t b target) else ok closed

  forget : CircuitBreaker → Result CircuitIdentity → CircuitBreaker × Result (Unit {0})
  forget b (raise e) = (b, raise e)
  forget b (ok i) = (record b { circuits = pop CircuitIdentity-discrete i b.circuits }, ok tt)

  -- `none` stands for the source None
  unfoldable pub reset : CircuitBreaker → Option Target → CircuitBreaker × Result (Unit {0})
  unfolding forget
  reset b none = (record b { circuits = [] }, ok tt)
  reset b (some target) = forget b (identity_of t b target)
