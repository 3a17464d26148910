-- ===== src/Resilience/Breaker/Threshold.antt =====
-- resilience/circuit_breaker.py: failures, the threshold and the recovery timeout.
use coalestra.Prelude.{
  ℕ, ℤ, pos_part, neg_part, ◌+◌, ◌≤◌, ◌<◌, ◌≡◌, ◌↔◌, ◌⊎◌, inl, inr, refl, true, List, [], ◌∷◌,
  arith, leb, if◌then◌else◌, length,
}
use coalestra.Core.Errors.{ok, raise, circuit_open_error, Result, Result-cases}
use coalestra.Resilience.Breaker.{
  CircuitState, closed, opened, half_open, CircuitIdentity, CircuitBreaker, Texts, Target,
  resolved_policy, identity_of, circuit_at, update, admit, fail, is_half_open, waiting,
}
use coalestra.Resilience.Breaker.Operations.{before_call, record_failure, state_for}
use coalestra.Resilience.Breaker.Invariant.{circuit_at-update}

-- later - now < timeout
abbrev pub IsEarlier : ℤ → ℤ → ℕ → Type 0
IsEarlier later now timeout =
    pos_part later + neg_part now < pos_part now + neg_part later + timeout

-- the state that a count of failures stands for, when nothing but failures was reported
abbrev pub state_after : ℕ → ℕ → CircuitState
state_after threshold failures = if leb threshold failures then opened else closed

-- record_failure for one target, at each of the times
unfoldable pub fail_all : Texts → CircuitBreaker → List ℤ → Target → CircuitBreaker
fail_all t b [] target = b
fail_all t b (now ∷ nows) target = fail_all t (record_failure t b now target).0 nows target

answers_by :
    (later now : ℤ) (timeout : ℕ) (i : CircuitIdentity) {r : Result CircuitIdentity}
    → r ≡ (if waiting later now timeout then raise circuit_open_error else ok i)
    → ((r ≡ raise circuit_open_error) ↔ IsEarlier later now timeout)
      × ((r ≡ ok i) ↔ (¬ IsEarlier later now timeout))
answers_by later now timeout i e = ground (arith, e)

module _ (t : Texts) (i : CircuitIdentity) (target : Target) where
  IsCounted : CircuitBreaker → ℕ → Type 0
  IsCounted b failures =
      ((circuit_at b i).failures ≡ failures)
      × ((circuit_at b i).state ≡ state_after (resolved_policy b target).failure_threshold failures)

  policy-record_failure :
      (b : CircuitBreaker) (now : ℤ)
      → resolved_policy (record_failure t b now target).0 target ≡ resolved_policy b target
  unfolding record_failure update
  policy-record_failure b now = elim (Result-cases (identity_of t b target)) [
    | inl (x, e) ↦ ground (arith, e)
    | inr (j, e) ↦ ground (arith, e)
  ]

  failure-IsCounted :
      (b : CircuitBreaker) (now : ℤ) (failures : ℕ)
      → identity_of t b target ≡ ok i
      → (resolved_policy b target).enabled ≡ true
      → IsCounted b failures
      → IsCounted (record_failure t b now target).0 (failures + 1)
  unfolding record_failure fail is_half_open IsCounted
  failure-IsCounted b now failures e enabled c = ground (
    arith,
    policy-record_failure b now,
    circuit_at-update b i i
        (fail now (resolved_policy b target).failure_threshold (circuit_at b i)),
  )

  fail_all-IsCounted :
      (nows : List ℤ) (b : CircuitBreaker) (failures : ℕ)
      → identity_of t b target ≡ ok i
      → (resolved_policy b target).enabled ≡ true
      → IsCounted b failures
      → IsCounted (fail_all t b nows target) (failures + length nows)
  unfolding fail_all IsCounted
  fail_all-IsCounted [] b failures e enabled c = ground arith
  fail_all-IsCounted (now ∷ nows) b failures e enabled c =
      let step = failure-IsCounted b now failures e enabled c in
      let same = policy-record_failure b now in
      ground (
        arith,
        fail_all-IsCounted nows (record_failure t b now target).0 (failures + 1) (rw (same, e))
            (rw (same, enabled)) step,
      )

  policy-fail_all :
      (nows : List ℤ) (b : CircuitBreaker)
      → resolved_policy (fail_all t b nows target) target ≡ resolved_policy b target
  unfolding fail_all
  policy-fail_all [] b = refl
  policy-fail_all (now ∷ nows) b =
      ground
        (arith, policy-fail_all nows (record_failure t b now target).0, policy-record_failure b now)

  state_for-counted :
      (b : CircuitBreaker) (failures : ℕ)
      → identity_of t b target ≡ ok i
      → (resolved_policy b target).enabled ≡ true
      → IsCounted b failures
      → state_for t b target
        ≡ ok (state_after (resolved_policy b target).failure_threshold failures)
  unfolding state_for IsCounted
  state_for-counted b failures e enabled c = ground arith

  -- Under an enabled policy, failures reported one after the other on a closed circuit that has
  -- counted fewer than the threshold open it exactly when the count reaches the threshold, whenever
  -- they are reported.
  pub opens_at_threshold :
      (nows : List ℤ) (b : CircuitBreaker)
      → identity_of t b target ≡ ok i
      → (resolved_policy b target).enabled ≡ true
      → (circuit_at b i).state ≡ closed
      → (circuit_at b i).failures < (resolved_policy b target).failure_threshold
      → state_for t (fail_all t b nows target) target
        ≡ ok (
            state_after
              (resolved_policy b target).failure_threshold
              ((circuit_at b i).failures + length nows))
  unfolding IsCounted
  opens_at_threshold nows b e enabled s below =
      let same = policy-fail_all nows b in
      let counted =
        fail_all-IsCounted nows b (circuit_at b i).failures e enabled (refl, ground arith) in
      ground (
        arith,
        same,
        state_for-counted (fail_all t b nows target) ((circuit_at b i).failures + length nows)
            (rw same e) (rw same enabled) counted,
      )

  -- Under an enabled policy, a failure that brings the count to the threshold, and every failure
  -- of a half-open circuit, opens the circuit for the whole recovery timeout: the next call is
  -- refused if it comes earlier than that after the failure, and is let through otherwise.
  pub refused_until_timeout :
      (b : CircuitBreaker) (now later : ℤ)
      → identity_of t b target ≡ ok i
      → (resolved_policy b target).enabled ≡ true
      → ((resolved_policy b target).failure_threshold ≤ (circuit_at b i).failures + 1)
        ⊎ ((circuit_at b i).state ≡ half_open)
      → let answer = (before_call t (record_failure t b now target).0 later target).1 in
        let timeout = (resolved_policy b target).recovery_timeout_seconds in
        ((answer ≡ raise circuit_open_error) ↔ IsEarlier later now timeout)
        × ((answer ≡ ok i) ↔ (¬ IsEarlier later now timeout))
  unfolding before_call admit record_failure fail is_half_open
  refused_until_timeout b now later e enabled h = answers_by later now timeout i (
      ground (
        arith,
        policy-record_failure b now,
        circuit_at-update b i i
            (fail now (resolved_policy b target).failure_threshold (circuit_at b i)),
      ))
    where
      timeout : ℕ
      timeout = (resolved_policy b target).recovery_timeout_seconds
