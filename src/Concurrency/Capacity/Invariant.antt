-- ===== src/Concurrency/Capacity/Invariant.antt =====
-- concurrency/capacity.py: what tasks do to the limiters, interleaved at each wait.
use coalestra.Prelude.{
  ℕ, ◌+◌, ◌≡◌, refl, inl, inr, String, String-discrete, Option, none, some, List, [], ◌∷◌, arith,
  Option-cases,
}
use coalestra.Dict.{lookup}
use coalestra.Dict.Laws.{lookup-put}
use coalestra.Concurrency.Capacity.{
  CapacityLimiter, Wait, granted, interrupted, end_wait, release_slot, CapacityController, Slot,
  global, source, limiter_at, with_limiter, register_checked,
}

-- A task begins to wait, its wait ends, a slot is released, or a source is registered.
pub data Event : Type 0 where
  enters releases : Slot → Event
  ends : Wait → Slot → Event
  registers : String → ℕ → Event

abbrev enter : CapacityLimiter → CapacityLimiter
enter l = record l { waiting = l.waiting + 1 }

-- the limiter after the wait; one that is not free is not granted
abbrev end : Wait → CapacityLimiter → CapacityLimiter
end w l = elim (end_wait w l) [ none ↦ l | some done ↦ done.0 ]

abbrev on_limiter :
    CapacityController → Slot → (CapacityLimiter → CapacityLimiter) → CapacityController
on_limiter c s f = elim (limiter_at c s) [ none ↦ c | some l ↦ with_limiter c s (f l) ]

abbrev pub step : CapacityController → Event → CapacityController
step c (enters s) = on_limiter c s enter
step c (ends w s) = on_limiter c s (end w)
step c (releases s) = on_limiter c s (λ l. (release_slot l).0)
step c (registers name limit) =
    (register_checked c name limit (lookup String-discrete name c.source_limits)).0

unfoldable pub run : CapacityController → List Event → CapacityController
run c [] = c
run c (e ∷ events) = run (step c e) events

-- every slot is free or in use
abbrev pub IsFull : CapacityLimiter → Type 0
IsFull l = l.in_use + l.free ≡ l.limit

abbrev pub IsWithin : CapacityController → Type 0
IsWithin c = (s : Slot) (l : CapacityLimiter) → limiter_at c s ≡ some l → IsFull l

with_limiter-IsWithin :
    (c : CapacityController) (s : Slot) (m : CapacityLimiter)
    → IsWithin c
    → IsFull m
    → IsWithin (with_limiter c s m)
unfolding with_limiter limiter_at
with_limiter-IsWithin c global m h f global l e = ground arith
with_limiter-IsWithin c global m h f (source k) l e = h (source k) l e
with_limiter-IsWithin c (source n) m h f global l e = h global l e
with_limiter-IsWithin c (source n) m h f (source k) l e =
    ground (arith, lookup-put String-discrete n k m c.source_limiters, h (source k) l)

on_limiter-IsWithin :
    (c : CapacityController) (s : Slot) (f : CapacityLimiter → CapacityLimiter)
    → ((l : CapacityLimiter) → IsFull l → IsFull (f l))
    → IsWithin c
    → IsWithin (on_limiter c s f)
on_limiter-IsWithin c s f k h = found (limiter_at c s) refl
  where
    found :
        (o : Option CapacityLimiter)
        → limiter_at c s ≡ o
        → IsWithin (elim o [ none ↦ c | some l ↦ with_limiter c s (f l) ])
    found none e = h
    found (some l) e = with_limiter-IsWithin c s (f l) h (k l (h s l e))

end-IsFull : (w : Wait) (l : CapacityLimiter) → IsFull l → IsFull (end w l)
unfolding end_wait
end-IsFull granted l h = ground arith
end-IsFull interrupted l h = ground arith

release-IsFull : (l : CapacityLimiter) → IsFull l → IsFull (release_slot l).0
unfolding release_slot
release-IsFull l h = ground arith

register-IsWithin :
    (c : CapacityController) (name : String) (limit : ℕ) (old : Option ℕ)
    → IsWithin c
    → IsWithin (register_checked c name limit old).0
unfolding register_checked limiter_at
register-IsWithin c name limit old h global l e = ground (arith, h global l)
register-IsWithin c name limit old h (source k) l e =
    elim (Option-cases (lookup String-discrete name c.source_limiters)) [
      | inl f ↦ ground (
        arith,
        f,
        h (source k) l,
        lookup-put String-discrete name k
            (record { limit = limit; free = limit; in_use = 0; waiting = 0 }) c.source_limiters,
      )
      | inr (m, f) ↦ ground (
        arith,
        f,
        h (source k) l,
        h (source name) m,
        lookup-put String-discrete name k m c.source_limiters,
      )
    ]

step-IsWithin : (c : CapacityController) (e : Event) → IsWithin c → IsWithin (step c e)
step-IsWithin c (enters s) h = on_limiter-IsWithin c s enter (λ l f. f) h
step-IsWithin c (ends w s) h = on_limiter-IsWithin c s (end w) (end-IsFull w) h
step-IsWithin c (releases s) h = on_limiter-IsWithin c s (λ l. (release_slot l).0) release-IsFull h
step-IsWithin c (registers name limit) h =
    register-IsWithin c name limit (lookup String-discrete name c.source_limits) h

-- However tasks wait, are granted slots, are interrupted, release slots and register sources, of
-- each limiter no more slots are in use than its limit, and the others are free, if this holds at
-- first.
pub run-IsWithin :
    (events : List Event) (c : CapacityController) → IsWithin c → IsWithin (run c events)
unfolding run
run-IsWithin [] c h = h
run-IsWithin (e ∷ events) c h = run-IsWithin events (step c e) (step-IsWithin c e h)
