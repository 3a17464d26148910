-- ===== src/Tests/Breaker.antt =====
-- The circuit breaker: two failures open a circuit for ten ticks.
use coalestra.Prelude.{pos, ◌≡◌, ◌↔◌, inl, refl, true, none, List, [], ◌∷◌, arith, String-discrete}
use coalestra.Dict.{lookup, put, pop}
use coalestra.Core.Errors.{ok, raise, circuit_open_error, Result}
use coalestra.Resilience.Policy.{source, CircuitScope-discrete, CircuitBreakerPolicy}
use coalestra.Resilience.Breaker.{
  opened, CircuitIdentity, CircuitIdentity-discrete, CircuitBreaker, Texts, Target, identity_for,
  circuit_at, update, admit, fail, is_half_open,
}
use coalestra.Resilience.Breaker.Operations.{before_call, record_failure, state_for}
use coalestra.Resilience.Breaker.Invariant.{
  Event, calls, fails, run, IsSound, IsSoundBreaker, run-IsSound,
}
use coalestra.Resilience.Breaker.Probe.{probe_exclusive}
use coalestra.Resilience.Breaker.Threshold.{
  fail_all, IsEarlier, opens_at_threshold, refused_until_timeout,
}

program : Unit {0}
unfolding before_call record_failure state_for run fail_all lookup put pop String-discrete
    CircuitScope-discrete CircuitIdentity-discrete identity_for circuit_at update admit fail
    is_half_open
program = tt

abbrev texts : Texts
texts = record { strip = λ s. s; urlencode = λ q. "" }

abbrev policy : CircuitBreakerPolicy
policy = record {
  scope = source;
  failure_threshold = 2;
  recovery_timeout_seconds = 10;
  enabled = true;
}

abbrev breaker : CircuitBreaker
breaker = record { default_policy = policy; circuits = [] }

abbrev rest_source : Target
rest_source = record { source = "rest"; key = none; policy = none }

abbrev stream_source : Target
stream_source = record rest_source { source = "stream" }

abbrev rest_identity : CircuitIdentity
rest_identity = record { source = "rest"; scope = source; discriminator = "" }

-- two failures, and a call once the timeout is over: its probe is out
abbrev probing : List Event
probing = fails (pos 1) rest_source ∷ fails (pos 2) rest_source ∷ calls (pos 12) rest_source ∷ []

breaker-IsSound : IsSoundBreaker breaker
unfolding program
breaker-IsSound i = refl

run-IsSound_example : IsSoundBreaker (run texts breaker probing)
run-IsSound_example = run-IsSound texts probing breaker breaker-IsSound

probe_exclusive_example :
    (before_call texts
      (run texts
        (run texts breaker probing)
        (calls (pos 13) rest_source ∷ fails (pos 14) stream_source ∷ []))
      (pos 40)
      rest_source).1
    ≡ raise circuit_open_error
unfolding program
probe_exclusive_example =
    probe_exclusive texts rest_identity
      (calls (pos 13) rest_source ∷ fails (pos 14) stream_source ∷ []) (run texts breaker probing)
      (tt, (λ p. cc p, tt)) (refl, refl) (pos 40) rest_source refl refl

opens_at_threshold_example :
    state_for texts (fail_all texts breaker (pos 1 ∷ pos 2 ∷ []) rest_source) rest_source
    ≡ ok opened
unfolding program
opens_at_threshold_example =
    opens_at_threshold texts rest_identity rest_source (pos 1 ∷ pos 2 ∷ []) breaker refl refl refl
      (omega arith)

-- the answer at the end of the timeout, after the second failure
abbrev reopened : Result CircuitIdentity
reopened =
    (before_call texts
      (record_failure texts (record_failure texts breaker (pos 1) rest_source).0 (pos 2)
        rest_source).0
      (pos 12) rest_source).1

refused_until_timeout_example :
    ((reopened ≡ raise circuit_open_error) ↔ IsEarlier (pos 12) (pos 2) 10)
    × ((reopened ≡ ok rest_identity) ↔ (¬ IsEarlier (pos 12) (pos 2) 10))
unfolding program
refused_until_timeout_example =
    refused_until_timeout texts rest_identity rest_source
      (record_failure texts breaker (pos 1) rest_source).0 (pos 2) (pos 12) refl refl
      (inl (omega arith))

reopened_lem : reopened ≡ ok rest_identity
unfolding program
reopened_lem = refl

abbrev failing : List Event
failing = fails (pos 1) rest_source ∷ fails (pos 2) rest_source ∷ []

failing-IsSound : IsSound (circuit_at (run texts breaker failing) rest_identity)
failing-IsSound = run-IsSound texts failing breaker breaker-IsSound rest_identity
