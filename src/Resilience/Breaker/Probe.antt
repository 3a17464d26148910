-- ===== src/Resilience/Breaker/Probe.antt =====
-- resilience/circuit_breaker.py: calls of a half-open circuit whose probe is out.
use coalestra.Prelude.{ℤ, ◌≡◌, ◌≢◌, inl, inr, true, none, some, List, [], ◌∷◌, arith, Option-cases}
use coalestra.Dict.{lookup}
use coalestra.Core.Errors.{ok, raise, circuit_open_error, Result-cases}
use coalestra.Resilience.Breaker.{
  half_open, CircuitIdentity, CircuitIdentity-discrete, Circuit, CircuitBreaker, Texts, Target,
  resolved_policy, identity_of, circuit_at, update, admit, succeed, fail, abandon, skip,
}
use coalestra.Resilience.Breaker.Operations.{
  before_call, record_success, record_failure, record_abandoned, record_skipped, reset,
}
use coalestra.Resilience.Breaker.Invariant.{
  Event, calls, succeeds, fails, abandons, skips, resets, step, run, circuit_at-update,
  circuit_at-pop,
}

abbrev pub IsBusy : Circuit → Type 0
IsBusy c = (c.state ≡ half_open) × (c.half_open_probe_active ≡ true)

-- The event does not report on the circuit and does not reset it; it may be a call of it.
abbrev pub Spares : Texts → CircuitIdentity → CircuitBreaker → Event → Type 0
Spares t i b (calls now target) = Unit
Spares t i b (succeeds target) = identity_of t b target ≢ ok i
Spares t i b (fails now target) = identity_of t b target ≢ ok i
Spares t i b (abandons now target) = identity_of t b target ≢ ok i
Spares t i b (skips target) = identity_of t b target ≢ ok i
Spares t i b (resets none) = ⊥
Spares t i b (resets (some target)) = identity_of t b target ≢ ok i

abbrev pub SparesAll : Texts → CircuitIdentity → CircuitBreaker → List Event → Type 0
SparesAll t i b [] = Unit
SparesAll t i b (e ∷ events) = Spares t i b e × SparesAll t i (step t b e) events

module _ (t : Texts) (i : CircuitIdentity) (b : CircuitBreaker) where
  update_other :
      (j : CircuitIdentity) (c : Circuit) → j ≢ i → circuit_at (update b j c) i ≡ circuit_at b i
  update_other j c h = ground (arith, circuit_at-update b j i c)

  call-busy :
      (now : ℤ) (target : Target)
      → IsBusy (circuit_at b i)
      → circuit_at (before_call t b now target).0 i ≡ circuit_at b i
  unfolding before_call admit
  call-busy now target h = elim (Result-cases (identity_of t b target)) [
    | inl (x, e) ↦ ground (arith, e)
    | inr (j, e) ↦ ground (
      arith,
      e,
      circuit_at-update b j i
          (admit now (resolved_policy b target).recovery_timeout_seconds (circuit_at b j).state
            (circuit_at b j)).0,
    )
  ]

  success-other :
      (target : Target)
      → identity_of t b target ≢ ok i
      → circuit_at (record_success t b target).0 i ≡ circuit_at b i
  unfolding record_success
  success-other target h = elim (Result-cases (identity_of t b target)) [
    | inl (x, e) ↦ ground (arith, e)
    | inr (j, e) ↦ ground (arith, e, update_other j (succeed (circuit_at b j)))
  ]

  failure-other :
      (now : ℤ) (target : Target)
      → identity_of t b target ≢ ok i
      → circuit_at (record_failure t b now target).0 i ≡ circuit_at b i
  unfolding record_failure
  failure-other now target h = elim (Result-cases (identity_of t b target)) [
    | inl (x, e) ↦ ground (arith, e)
    | inr (j, e) ↦ ground (
      arith,
      e,
      update_other j (fail now (resolved_policy b target).failure_threshold (circuit_at b j)),
    )
  ]

  abandoned-other :
      (now : ℤ) (target : Target)
      → identity_of t b target ≢ ok i
      → circuit_at (record_abandoned t b now target).0 i ≡ circuit_at b i
  unfolding record_abandoned
  abandoned-other now target h = elim (Result-cases (identity_of t b target)) [
    | inl (x, e) ↦ ground (arith, e)
    | inr (j, e) ↦ elim (Option-cases (lookup CircuitIdentity-discrete j b.circuits)) [
      | inl f ↦ ground (arith, e, f)
      | inr (c, f) ↦ ground (arith, e, f, update_other j (abandon now c))
    ]
  ]

  skipped-other :
      (target : Target)
      → identity_of t b target ≢ ok i
      → circuit_at (record_skipped t b target).0 i ≡ circuit_at b i
  unfolding record_skipped
  skipped-other target h = elim (Result-cases (identity_of t b target)) [
    | inl (x, e) ↦ ground (arith, e)
    | inr (j, e) ↦ elim (Option-cases (lookup CircuitIdentity-discrete j b.circuits)) [
      | inl f ↦ ground (arith, e, f)
      | inr (c, f) ↦ ground (arith, e, f, update_other j (skip c))
    ]
  ]

  reset-other :
      (target : Target)
      → identity_of t b target ≢ ok i
      → circuit_at (reset t b (some target)).0 i ≡ circuit_at b i
  unfolding reset
  reset-other target h = elim (Result-cases (identity_of t b target)) [
    | inl (x, e) ↦ ground (arith, e)
    | inr (j, e) ↦ ground (arith, e, circuit_at-pop b j i)
  ]

  step-busy :
      (e : Event)
      → Spares t i b e
      → IsBusy (circuit_at b i)
      → circuit_at (step t b e) i ≡ circuit_at b i
  step-busy (calls now target) s h = call-busy now target h
  step-busy (succeeds target) s h = success-other target s
  step-busy (fails now target) s h = failure-other now target s
  step-busy (abandons now target) s h = abandoned-other now target s
  step-busy (skips target) s h = skipped-other target s
  step-busy (resets none) s h = ground arith
  step-busy (resets (some target)) s h = reset-other target s

run-IsBusy :
    (t : Texts) (i : CircuitIdentity) (events : List Event) (b : CircuitBreaker)
    → SparesAll t i b events
    → IsBusy (circuit_at b i)
    → IsBusy (circuit_at (run t b events) i)
unfolding run
run-IsBusy t i [] b s h = h
run-IsBusy t i (e ∷ events) b (s, ss) h =
    run-IsBusy t i events (step t b e) ss (rw (step-busy t i b e s h) h)

busy-refused :
    (t : Texts) (i : CircuitIdentity) (b : CircuitBreaker) (now : ℤ) (target : Target)
    → IsBusy (circuit_at b i)
    → identity_of t b target ≡ ok i
    → (resolved_policy b target).enabled ≡ true
    → (before_call t b now target).1 ≡ raise circuit_open_error
unfolding before_call admit
busy-refused t i b now target h e enabled = ground arith

-- While a half-open circuit has a probe, every enabled call of it is refused, at whatever time and
-- after whatever other calls and reports, as long as none of the reports and resets is on it.
pub probe_exclusive :
    (t : Texts) (i : CircuitIdentity) (events : List Event) (b : CircuitBreaker)
    → SparesAll t i b events
    → IsBusy (circuit_at b i)
    → (now : ℤ) (target : Target) → identity_of t (run t b events) target ≡ ok i
    → (resolved_policy (run t b events) target).enabled ≡ true
    → (before_call t (run t b events) now target).1 ≡ raise circuit_open_error
probe_exclusive t i events b s h now target e enabled =
    busy-refused t i (run t b events) now target (run-IsBusy t i events b s h) e enabled
