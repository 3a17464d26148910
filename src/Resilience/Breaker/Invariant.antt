-- ===== src/Resilience/Breaker/Invariant.antt =====
-- resilience/circuit_breaker.py: sequences of operations, and an invariant of each circuit.
use coalestra.Prelude.{
  ℕ, ℤ, ◌≤◌, ◌≡◌, inl, inr, refl, Bool, false, Option, none, some, List, [], ◌∷◌, ite, arith,
  Option-cases,
}
use coalestra.Dict.{lookup, pop}
use coalestra.Dict.Laws.{lookup-put, lookup-pop}
use coalestra.Core.Errors.{Result-cases}
use coalestra.Resilience.Breaker.{
  CircuitState, closed, opened, half_open, CircuitIdentity, CircuitIdentity-discrete, Circuit,
  new_circuit, CircuitBreaker, Texts, Target, resolved_policy, identity_of, circuit_at, update,
  admit, succeed, fail, abandon, skip, is_half_open,
}
use coalestra.Resilience.Breaker.Operations.{
  before_call, record_success, record_failure, record_abandoned, record_skipped, reset,
}

-- The breaker's operations, as what callers do to it one after the other.
pub data Event : Type 0 where
  calls : ℤ → Target → Event
  succeeds : Target → Event
  fails : ℤ → Target → Event
  abandons : ℤ → Target → Event
  skips : Target → Event
  resets : Option Target → Event

abbrev pub step : Texts → CircuitBreaker → Event → CircuitBreaker
step t b (calls now target) = (before_call t b now target).0
step t b (succeeds target) = (record_success t b target).0
step t b (fails now target) = (record_failure t b now target).0
step t b (abandons now target) = (record_abandoned t b now target).0
step t b (skips target) = (record_skipped t b target).0
step t b (resets target) = (reset t b target).0

unfoldable pub run : Texts → CircuitBreaker → List Event → CircuitBreaker
run t b [] = b
run t b (e ∷ events) = run t (step t b e) events

abbrev pub SoundAt : CircuitState → ℕ → Bool → Type 0
SoundAt closed failures active = active ≡ false
SoundAt opened failures active = (1 ≤ failures) × (active ≡ false)
SoundAt half_open failures active = 1 ≤ failures

-- Only a half-open circuit has a probe, and only one that failed is not closed.
abbrev pub IsSound : Circuit → Type 0
IsSound c = SoundAt c.state c.failures c.half_open_probe_active

abbrev pub IsSoundBreaker : CircuitBreaker → Type 0
IsSoundBreaker b = (i : CircuitIdentity) → IsSound (circuit_at b i)

pub circuit_at-update :
    (b : CircuitBreaker) (i j : CircuitIdentity) (c : Circuit)
    → circuit_at (update b i c) j ≡ ite (CircuitIdentity-discrete i j) c (circuit_at b j)
unfolding circuit_at update
circuit_at-update b i j c = ground (arith, lookup-put CircuitIdentity-discrete i j c b.circuits)

circuit_at-found :
    (b : CircuitBreaker) (i : CircuitIdentity) (c : Circuit)
    → lookup CircuitIdentity-discrete i b.circuits ≡ some c
    → circuit_at b i ≡ c
unfolding circuit_at
circuit_at-found b i c e = ground (arith, e)

pub circuit_at-pop :
    (b : CircuitBreaker) (i j : CircuitIdentity)
    → circuit_at (record b { circuits = pop CircuitIdentity-discrete i b.circuits }) j
      ≡ ite (CircuitIdentity-discrete i j) new_circuit (circuit_at b j)
unfolding circuit_at
circuit_at-pop b i j = ground (arith, lookup-pop CircuitIdentity-discrete i j b.circuits)

admit-IsSound :
    (now : ℤ) (timeout : ℕ) (s : CircuitState) (c : Circuit)
    → c.state ≡ s
    → IsSound c
    → IsSound (admit now timeout s c).0
unfolding admit
admit-IsSound now timeout closed c e h = h
admit-IsSound now timeout opened c e h = ground arith
admit-IsSound now timeout half_open c e h = ground arith

fail-IsSound : (now : ℤ) (threshold : ℕ) (c : Circuit) → IsSound c → IsSound (fail now threshold c)
unfolding fail is_half_open
fail-IsSound now threshold c h = ground arith

abandon-IsSound : (now : ℤ) (c : Circuit) → IsSound c → IsSound (abandon now c)
unfolding abandon is_half_open
abandon-IsSound now c h = ground arith

skip-IsSound : (c : Circuit) → IsSound c → IsSound (skip c)
skip-IsSound c h = ground arith

update-IsSound :
    (b : CircuitBreaker) (i : CircuitIdentity) (c : Circuit)
    → IsSoundBreaker b
    → IsSound c
    → IsSoundBreaker (update b i c)
update-IsSound b i c h g j = ground (arith, circuit_at-update b i j c, h j)

module _ (t : Texts) (b : CircuitBreaker) (h : IsSoundBreaker b) where
  before_call-IsSound : (now : ℤ) (target : Target) → IsSoundBreaker (before_call t b now target).0
  unfolding before_call
  before_call-IsSound now target = elim (Result-cases (identity_of t b target)) [
    | inl (x, e) ↦ ground (arith, e)
    | inr (i, e) ↦ ground (
      arith,
      e,
      update-IsSound b i
          (admit now (resolved_policy b target).recovery_timeout_seconds (circuit_at b i).state
            (circuit_at b i)).0
          h,
      admit-IsSound now (resolved_policy b target).recovery_timeout_seconds (circuit_at b i).state
          (circuit_at b i) refl (h i),
    )
  ]

  record_success-IsSound : (target : Target) → IsSoundBreaker (record_success t b target).0
  unfolding record_success
  record_success-IsSound target = elim (Result-cases (identity_of t b target)) [
    | inl (x, e) ↦ ground (arith, e)
    | inr (i, e) ↦ ground (arith, e, update-IsSound b i (succeed (circuit_at b i)) h)
  ]

  record_failure-IsSound :
      (now : ℤ) (target : Target) → IsSoundBreaker (record_failure t b now target).0
  unfolding record_failure
  record_failure-IsSound now target = elim (Result-cases (identity_of t b target)) [
    | inl (x, e) ↦ ground (arith, e)
    | inr (i, e) ↦ ground (
      arith,
      e,
      update-IsSound b i (fail now (resolved_policy b target).failure_threshold (circuit_at b i)) h,
      fail-IsSound now (resolved_policy b target).failure_threshold (circuit_at b i) (h i),
    )
  ]

  found-IsSound :
      (i : CircuitIdentity) (c : Circuit)
      → lookup CircuitIdentity-discrete i b.circuits ≡ some c
      → IsSound c
  found-IsSound i c e = ground (arith, circuit_at-found b i c e, h i)

  record_abandoned-IsSound :
      (now : ℤ) (target : Target) → IsSoundBreaker (record_abandoned t b now target).0
  unfolding record_abandoned
  record_abandoned-IsSound now target = elim (Result-cases (identity_of t b target)) [
    | inl (x, e) ↦ ground (arith, e)
    | inr (i, e) ↦ elim (Option-cases (lookup CircuitIdentity-discrete i b.circuits)) [
      | inl f ↦ ground (arith, e, f)
      | inr (c, f) ↦ ground (
        arith,
        e,
        f,
        update-IsSound b i (abandon now c) h,
        abandon-IsSound now c (found-IsSound i c f),
      )
    ]
  ]

  record_skipped-IsSound : (target : Target) → IsSoundBreaker (record_skipped t b target).0
  unfolding record_skipped
  record_skipped-IsSound target = elim (Result-cases (identity_of t b target)) [
    | inl (x, e) ↦ ground (arith, e)
    | inr (i, e) ↦ elim (Option-cases (lookup CircuitIdentity-discrete i b.circuits)) [
      | inl f ↦ ground (arith, e, f)
      | inr (c, f) ↦
          ground (arith, e, f, update-IsSound b i (skip c) h, skip-IsSound c (found-IsSound i c f))
    ]
  ]

  pop-IsSound :
      (i : CircuitIdentity)
      → IsSoundBreaker (record b { circuits = pop CircuitIdentity-discrete i b.circuits })
  pop-IsSound i j = ground (arith, circuit_at-pop b i j, h j)

  reset-IsSound : (target : Option Target) → IsSoundBreaker (reset t b target).0
  unfolding reset circuit_at lookup
  reset-IsSound none = λ i. refl
  reset-IsSound (some target) = elim (Result-cases (identity_of t b target)) [
    | inl (x, e) ↦ ground (arith, e)
    | inr (i, e) ↦ ground (arith, e, pop-IsSound i)
  ]

step-IsSound :
    (t : Texts) (b : CircuitBreaker) (e : Event) → IsSoundBreaker b → IsSoundBreaker (step t b e)
step-IsSound t b (calls now target) h = before_call-IsSound t b h now target
step-IsSound t b (succeeds target) h = record_success-IsSound t b h target
step-IsSound t b (fails now target) h = record_failure-IsSound t b h now target
step-IsSound t b (abandons now target) h = record_abandoned-IsSound t b h now target
step-IsSound t b (skips target) h = record_skipped-IsSound t b h target
step-IsSound t b (resets target) h = reset-IsSound t b h target

-- After any operations, errors and resets included, every circuit is sound if every circuit was:
-- only a half-open one has a probe, and one that is not closed has counted a failure.
pub run-IsSound :
    (t : Texts) (events : List Event) (b : CircuitBreaker)
    → IsSoundBreaker b
    → IsSoundBreaker (run t b events)
unfolding run
run-IsSound t [] b h = h
run-IsSound t (e ∷ events) b h = run-IsSound t events (step t b e) (step-IsSound t b e h)
