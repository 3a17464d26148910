-- ===== src/Resilience/Retry/Bounds.antt =====
-- resilience/retry.py: how often the loop tries, when it sleeps, and why it ends.
use coalestra.Prelude.{
  ℕ, ℤ, monus, zero, suc, ◌+◌, ◌≤◌, ◌<◌, ◌≡◌, ◌⊎◌, refl, subst, ℕ_discrete, ltb→lt, leb, not, ◌||◌,
  ◌==◌, List, [], ◌∷◌, Bool, true, false, none, some, arith, All, Bool-cases, ltb, if◌then◌else◌,
  Option, inl, inr,
}
use coalestra.Core.Errors.{Result, ok, raise, Error, is_exception}
use coalestra.Resilience.Retry.{
  RetryPolicy, Surroundings, Outcome, past_deadline, delay_for_attempt, after, error_of,
  attempts_from, run_with_retry, slept, ended,
}

-- a sleep that starts at `now` ends before the deadline, if there is one
abbrev pub EndsBefore : Option ℤ → ℤ → ℕ → Type 0
EndsBefore none now delay = Unit
EndsBefore (some deadline) now delay = delay < monus deadline now

past_deadline-EndsBefore :
    (deadline : Option ℤ) (now : ℤ) (delay : ℕ)
    → past_deadline deadline now delay ≡ false
    → EndsBefore deadline now delay
unfolding past_deadline
past_deadline-EndsBefore none now delay h = tt
past_deadline-EndsBefore (some deadline) now delay h = ground arith

past_deadline-late :
    (deadline : Option ℤ) (now : ℤ) (delay : ℕ)
    → past_deadline deadline now delay ≡ true
    → ¬ EndsBefore deadline now delay
unfolding past_deadline
past_deadline-late none now delay h = cc
past_deadline-late (some deadline) now delay h = λ k. ground arith

no_between : (a b : ℕ) → a ≤ b → b < a → ⊥
no_between a b h g = omega arith

-- there is a sleep after the attempt
abbrev pub slept_after : ℕ → List (ℕ × ℕ) → Bool
slept_after attempt [] = false
slept_after attempt ((a, _) ∷ sleeps) = a == attempt || slept_after attempt sleeps

module _ {T : Type 0} (p : RetryPolicy) (s : Surroundings T) where
  abbrev pub delay_at : ℕ → ℕ
  delay_at attempt = delay_for_attempt s.jittered p attempt

  -- The attempt failed in a way that may be tried again, and before the deadline.
  pub record IsRetried (attempt : ℕ) : Type 0 where
    pub error : Error
    pub raised : s.operation attempt ≡ raise error
    pub caught : is_exception error ≡ true
    pub allowed : s.retryable error ≡ true
    pub in_time : EndsBefore s.deadline_monotonic (s.monotonic attempt) (delay_at attempt)

  -- Why the loop ends after `attempt` with `answer`.
  pub data Ends (attempt : ℕ) (answer : Result T) : Type 0 where
    answered : (v : T) → s.operation attempt ≡ ok v → answer ≡ ok v → Ends attempt answer
    gave_up :
        (e : Error)
        → s.operation attempt ≡ raise e
        → answer ≡ raise e
        → (is_exception e ≡ false)
          ⊎ ((attempt ≡ p.max_attempts)
              ⊎ ((s.retryable e ≡ false)
                  ⊎ (¬ EndsBefore s.deadline_monotonic (s.monotonic attempt) (delay_at attempt))))
        → Ends attempt answer
    interrupted :
        (e : Error)
        → s.interruption attempt ≡ some e
        → answer ≡ raise e
        → 0 < delay_at attempt
        → attempt < p.max_attempts
        → IsRetried attempt
        → Ends attempt answer

  -- a sleep of the backoff, after an attempt
  abbrev pub IsBackoff : ℕ → ℕ × ℕ → Type 0
  IsBackoff attempts (attempt, delay) =
      (attempt ≤ attempts) × (0 < delay) × (delay ≡ delay_at attempt) × IsRetried attempt

  -- What the loop does from the attempt `first` on.
  pub record IsRun (first : ℕ) (o : Outcome T) : Type 0 where
    pub at_least : first ≤ o.attempts
    pub at_most : o.attempts ≤ p.max_attempts
    pub ends : Ends o.attempts o.answer
    pub retried : (a : ℕ) → first ≤ a → a < o.attempts → IsRetried a
    pub backoff : All (IsBackoff o.attempts) o.sleeps
    pub sleeps :
        (a : ℕ)
        → first ≤ a
        → a < o.attempts
        → 0 < delay_at a
        → (slept_after a o.sleeps ≡ true) × (s.interruption a ≡ none)

  ended-IsRun :
      (attempt : ℕ) (r : Result T)
      → attempt ≤ p.max_attempts
      → Ends attempt r
      → IsRun attempt (ended p s attempt r)
  ended-IsRun attempt r h e = record {
    at_least = omega arith;
    at_most = h;
    ends = e;
    retried = λ a i j. absurd (no_between attempt a i j);
    backoff = tt;
    sleeps = λ a i j d. absurd (no_between attempt a i j);
  }

  module _ (attempt : ℕ) (o : Outcome T) (again : IsRetried attempt)
      (h : IsRun (attempt + 1) o) where
    from-IsRetried : (a : ℕ) → attempt ≤ a → a < o.attempts → IsRetried a
    from-IsRetried a i j = elim (ℕ_discrete attempt a) [
      | yes same ↦ subst IsRetried same again
      | no other ↦ h.retried a (ground (arith, i, other)) j
    ]

    skipped-IsRun : delay_at attempt ≡ 0 → IsRun attempt o
    skipped-IsRun zero_delay = record {
      at_least = omega (arith, h.at_least);
      at_most = h.at_most;
      ends = h.ends;
      retried = from-IsRetried;
      backoff = h.backoff;
      sleeps = λ a i j d. elim (ℕ_discrete attempt a) [
        | yes same ↦ ground (arith, same, zero_delay, d)
        | no other ↦ h.sleeps a (ground (arith, i, other)) j d
      ];
    }

    slept-IsRun :
        (i : Option Error)
        → s.interruption attempt ≡ i
        → 0 < delay_at attempt
        → IsRun attempt (slept p s attempt (delay_at attempt) i o)
    unfolding slept
    slept-IsRun none e d = record {
      at_least = omega (arith, h.at_least);
      at_most = h.at_most;
      ends = h.ends;
      retried = from-IsRetried;
      backoff = ((omega (arith, h.at_least), d, refl, again), h.backoff);
      sleeps = λ a i j b. elim (ℕ_discrete attempt a) [
        | yes same ↦ ground (arith, same, e)
        | no other ↦ ground (arith, h.sleeps a (ground (arith, i, other)) j b)
      ];
    }
    slept-IsRun (some x) e d = record {
      at_least = omega arith;
      at_most = omega (arith, h.at_least, h.at_most);
      ends = interrupted x e refl d (omega (arith, h.at_least, h.at_most)) again;
      retried = λ a i j. absurd (no_between attempt a i j);
      backoff = ((omega arith, d, refl, again), tt);
      sleeps = λ a i j b. absurd (no_between attempt a i j);
    }

  last_or_refused :
      (attempt : ℕ) (x : Error)
      → attempt ≤ p.max_attempts
      → (leb p.max_attempts attempt || not (s.retryable x)) ≡ true
      → (attempt ≡ p.max_attempts)
        ⊎ ((s.retryable x ≡ false)
            ⊎ (¬ EndsBefore s.deadline_monotonic (s.monotonic attempt) (delay_at attempt)))
  last_or_refused attempt x h b = elim (Bool-cases (s.retryable x)) [
    | inl allowed ↦ inl (ground (arith, b, h, allowed))
    | inr refused ↦ inr (inl refused)
  ]

  again-IsRun :
      (attempt : ℕ) (rest : Outcome T)
      → IsRetried attempt
      → IsRun (attempt + 1) rest
      → IsRun attempt (
          if ltb 0 (delay_at attempt)
          then slept p s attempt (delay_at attempt) (s.interruption attempt) rest
          else rest)
  again-IsRun attempt rest again h = elim (Bool-cases (ltb 0 (delay_at attempt))) [
    | inl b ↦ rw b (
        slept-IsRun attempt rest again h (s.interruption attempt) refl
          (ltb→lt 0 (delay_at attempt) b))
    | inr b ↦ rw b (skipped-IsRun attempt rest again h (ground (arith, b)))
  ]

  after-IsRun :
      (attempt : ℕ) (rest : Outcome T) (r : Result T)
      → attempt ≤ p.max_attempts
      → s.operation attempt ≡ r
      → (attempt < p.max_attempts → IsRun (attempt + 1) rest)
      → IsRun attempt (after p s attempt rest r)
  unfolding after
  after-IsRun attempt rest (ok v) h e k = ended-IsRun attempt (ok v) h (answered v e refl)
  after-IsRun attempt rest (raise x) h e k = elim (Bool-cases (is_exception x)) [
    | inr b ↦ rw b (ended-IsRun attempt (raise x) h (gave_up x e refl (inl b)))
    | inl caught ↦
        rw caught (elim (Bool-cases (leb p.max_attempts attempt || not (s.retryable x))) [
          | inl b ↦ rw b (
              ended-IsRun attempt (raise x) h
                (gave_up x e refl (inr (last_or_refused attempt x h b))))
          | inr b ↦
              rw b
                (elim (Bool-cases
                  (past_deadline s.deadline_monotonic (s.monotonic attempt) (delay_at attempt))) [
                    | inl d ↦ rw d (
                        ended-IsRun attempt (raise x) h (
                          gave_up x e refl (
                            inr (
                              inr (
                                inr (
                                  past_deadline-late s.deadline_monotonic (s.monotonic attempt)
                                    (delay_at attempt) d))))))
                    | inr d ↦ rw d (
                        again-IsRun attempt rest
                          (record {
                            error = x;
                            raised = e;
                            caught = caught;
                            allowed = ground (arith, b);
                            in_time =
                                past_deadline-EndsBefore s.deadline_monotonic (s.monotonic attempt)
                                  (delay_at attempt) d;
                          })
                          (k (ground (arith, b))))
                  ])
        ])
  ]

  attempts_from-IsRun :
      (left attempt : ℕ) (last_error : Option Error)
      → attempt + left ≡ p.max_attempts
      → IsRun attempt (attempts_from p s attempt (suc left) last_error)
  unfolding attempts_from
  attempts_from-IsRun zero attempt last_error e =
      let result = s.operation attempt in
      after-IsRun attempt (attempts_from p s (attempt + 1) zero (error_of p s result)) result
        (omega (arith, e)) refl
        (λ l. absurd (no_between p.max_attempts attempt (omega (arith, e)) l))
  attempts_from-IsRun (suc left) attempt last_error e =
      let result = s.operation attempt in
      after-IsRun attempt (attempts_from p s (attempt + 1) (suc left) (error_of p s result)) result
        (omega (arith, e)) refl
        (λ l. attempts_from-IsRun left (attempt + 1) (error_of p s result) (omega (arith, e)))

  from_one : (n : ℕ) → n ≡ p.max_attempts → 1 ≤ n → IsRun 1 (attempts_from p s 1 n none)
  from_one zero e h = absurd (no_between 1 0 h (omega arith))
  from_one (suc n) e h = attempts_from-IsRun n 1 none (omega (arith, e))

  -- Where at least one attempt is allowed, the loop makes between one and the allowed number of
  -- attempts. It goes on from an attempt only if that raised a retryable Exception and the backoff
  -- ends before the deadline, and then sleeps for the backoff, if that is not zero. It ends with the
  -- value or the error of its last attempt: an error that is no Exception, comes from the last allowed
  -- attempt, may not be retried, or leaves no time for the backoff; or with what interrupts a sleep.
  pub run_with_retry-IsRun : 1 ≤ p.max_attempts → IsRun 1 (run_with_retry p s)
  unfolding run_with_retry
  run_with_retry-IsRun h = from_one p.max_attempts refl h
