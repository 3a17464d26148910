-- ===== src/Concurrency/Capacity/Release.antt =====
-- concurrency/capacity.py: what a release gives back.
use coalestra.Prelude.{
  ◌+◌, ◌-◌, ◌≡◌, refl, subst, ◌⊎◌, inl, inr, String, String-discrete, true, Option, none, some,
  List, [], ◌∷◌, ltb, arith, Bool-cases,
}
use coalestra.Dict.Laws.{lookup-put, put_self, put-put}
use coalestra.Core.Errors.{cancelled_error, Error, Result, ok, raise}
use coalestra.Concurrency.Capacity.{
  CapacityLimiter, Wait, granted, interrupted, end_wait, acquire_slot, release_slot,
  CapacityController, Slot, global, source, CapacityLease, limiter_at, with_limiter,
  normalize_source, release_found, release_all, release, roll_back, acquired_slot, acquire_all,
  slots_for, acquire_normalized, acquire,
}

with_self :
    (c : CapacityController) (s : Slot) (l : CapacityLimiter)
    → limiter_at c s ≡ some l
    → with_limiter c s l ≡ c
unfolding limiter_at with_limiter
with_self c global l e = ground (arith, e)
with_self c (source name) l e = ground (arith, put_self String-discrete name l c.source_limiters)

with_twice :
    (c : CapacityController) (s : Slot) (l m : CapacityLimiter)
    → with_limiter (with_limiter c s m) s l ≡ with_limiter c s l
unfolding with_limiter
with_twice c global l m = refl
with_twice c (source name) l m = ground (arith, put-put String-discrete name l m c.source_limiters)

at_with :
    (c : CapacityController) (s : Slot) (l : CapacityLimiter)
    → limiter_at (with_limiter c s l) s ≡ some l
unfolding limiter_at with_limiter
at_with c global l = refl
at_with c (source name) l = ground (arith, lookup-put String-discrete name name l c.source_limiters)

interrupted_slot :
    (l : CapacityLimiter) → acquire_slot interrupted l ≡ some (l, raise cancelled_error)
unfolding acquire_slot end_wait
interrupted_slot l = ground arith

-- a slot that is released again
granted_slot :
    (l m : CapacityLimiter) → acquire_slot granted l ≡ some (m, ok tt) → release_slot m ≡ (l, ok tt)
unfolding acquire_slot end_wait release_slot
granted_slot l m e = ground arith

granted_cases :
    (l : CapacityLimiter)
    → (acquire_slot granted l ≡ none)
      ⊎ ((m : CapacityLimiter) × (acquire_slot granted l ≡ some (m, ok tt)))
unfolding acquire_slot end_wait
granted_cases l = elim (Bool-cases (ltb 0 l.free)) [
  | inl e ↦
      inr (record l { free = l.free - 1; waiting = l.waiting + 1 - 1; in_use = l.in_use + 1 }, rw e)
  | inr e ↦ inl (rw e)
]

-- the slots give `c` back when they are released in `c'`
abbrev Undoes : List Slot → CapacityController → CapacityController → Type 0
Undoes slots c' c = release_all slots c' ≡ (c, ok tt)

release_found-granted :
    (c : CapacityController) (s : Slot) (l m : CapacityLimiter)
    → limiter_at c s ≡ some l
    → acquire_slot granted l ≡ some (m, ok tt)
    → release_found (with_limiter c s m) s (limiter_at (with_limiter c s m) s) ≡ (c, ok tt)
release_found-granted c s l m e g =
    rw (at_with c s m, granted_slot l m g, with_twice c s l m, with_self c s l e)

granted-Undoes :
    (slots : List Slot) (c c0 : CapacityController) (s : Slot) (l m : CapacityLimiter)
    → limiter_at c s ≡ some l
    → acquire_slot granted l ≡ some (m, ok tt)
    → Undoes slots c c0
    → Undoes (s ∷ slots) (with_limiter c s m) c0
unfolding release_all
granted-Undoes slots c c0 s l m e g u = ground (arith, release_found-granted c s l m e g)

-- Where the acquisition ends, all is as it was: at once where it raises, and once its lease is
-- released where it does not.
abbrev pub Restores :
    CapacityController → Option (CapacityController × Result CapacityLease) → Type 0
Restores c none = Unit
Restores c (some (c', raise e)) = c' ≡ c
Restores c (some (c', ok lease)) =
    release c' lease ≡ (c, record { limiters = lease.limiters; released = true }, ok tt)

roll_back-Restores :
    (slots : List Slot) (c c0 : CapacityController) (e : Error)
    → Undoes slots c c0
    → Restores c0 (some (roll_back slots c e))
unfolding roll_back
roll_back-Restores slots c c0 e u = ground arith

acquired_slot-Restores :
    (next : CapacityController → Option (CapacityController × Result CapacityLease))
    (slots : List Slot) (c c0 : CapacityController) (s : Slot) (l : CapacityLimiter) (w : Wait)
    → limiter_at c s ≡ some l
    → Undoes slots c c0
    → ((c' : CapacityController) → Undoes (s ∷ slots) c' c0 → Restores c0 (next c'))
    → Restores c0 (acquired_slot next slots c s (acquire_slot w l))
unfolding acquired_slot
acquired_slot-Restores next slots c c0 s l interrupted e u k =
    rw (interrupted_slot l, with_self c s l e) (roll_back-Restores slots c c0 cancelled_error u)
acquired_slot-Restores next slots c c0 s l granted e u k = elim (granted_cases l) [
  | inl f ↦ rw f tt
  | inr (m, f) ↦ rw f (k (with_limiter c s m) (granted-Undoes slots c c0 s l m e f u))
]

found-Restores :
    (next : CapacityController → Option (CapacityController × Result CapacityLease))
    (slots : List Slot) (c c0 : CapacityController) (s : Slot) (w : Wait)
    (o : Option CapacityLimiter)
    → limiter_at c s ≡ o
    → Undoes slots c c0
    → ((c' : CapacityController) → Undoes (s ∷ slots) c' c0 → Restores c0 (next c'))
    → Restores c0
        (elim o [ none ↦ none | some l ↦ acquired_slot next slots c s (acquire_slot w l) ])
found-Restores next slots c c0 s w none e u k = tt
found-Restores next slots c c0 s w (some l) e u k =
    acquired_slot-Restores next slots c c0 s l w e u k

acquire_all-Restores :
    (slots : List Slot) (waits : List Wait) (acquired : List Slot) (c c0 : CapacityController)
    → Undoes acquired c c0
    → Restores c0 (acquire_all slots waits acquired c)
unfolding acquire_all release
acquire_all-Restores [] waits acquired c c0 u = ground arith
acquire_all-Restores (s ∷ slots) [] acquired c c0 u = tt
acquire_all-Restores (s ∷ slots) (w ∷ waits) acquired c c0 u =
    found-Restores (acquire_all slots waits (s ∷ acquired)) acquired c c0 s w (limiter_at c s) refl
      u (λ c' v. acquire_all-Restores slots waits (s ∷ acquired) c' c0 v)

normalized-Restores :
    (c : CapacityController) (waits : List Wait) (name : Result String)
    → Restores c (acquire_normalized c waits name)
unfolding acquire_normalized release_all
normalized-Restores c waits (raise e) = refl
normalized-Restores c waits (ok name) = acquire_all-Restores (slots_for c name) waits [] c c refl

acquire-Restores :
    (strip : String → String) (c : CapacityController) (name : String) (waits : List Wait)
    → Restores c (acquire strip c name waits)
unfolding acquire
acquire-Restores strip c name waits = normalized-Restores c waits (normalize_source strip name)

module _ (strip : String → String) (c c' : CapacityController) (name : String)
    (waits : List Wait) where
  -- An acquisition that raises, on whichever of its waits, leaves every limiter as it was if no
  -- other task comes in between.
  pub acquire_rolls_back : (e : Error) → acquire strip c name waits ≡ some (c', raise e) → c' ≡ c
  acquire_rolls_back e h = subst (Restores c) h (acquire-Restores strip c name waits)

  -- Releasing the lease of an acquisition leaves every limiter as it was before the acquisition if
  -- no other task comes in between, and releasing it again changes nothing.
  pub acquire-release :
      (lease : CapacityLease)
      → acquire strip c name waits ≡ some (c', ok lease)
      → (release c' lease ≡ (c, record lease { released = true }, ok tt))
        × (release c (record lease { released = true })
            ≡ (c, record lease { released = true }, ok tt))
  unfolding release
  acquire-release lease h = (subst (Restores c) h (acquire-Restores strip c name waits), refl)
