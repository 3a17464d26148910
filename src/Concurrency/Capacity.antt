-- ===== src/Concurrency/Capacity.antt =====
-- concurrency/capacity.py. A semaphore of asyncio is its number of free slots; how a wait for it ends
-- is an argument. Each function is what a task does without an await, or a sequence of these.
pub mod Release
pub mod Invariant
use coalestra.Prelude.{
  ℕ, ℤ, pos, ◌+◌, ◌-◌, String, String-discrete, Bool, true, false, Option, none, some, List, [],
  ◌∷◌, ltb, ltb_ℤ, ◌==◌, ℕ_discrete, if◌then◌else◌,
}
use coalestra.Dict.{lookup, put}
use coalestra.Core.Errors.{
  value_error, runtime_error, cancelled_error, Error, Result, ok, raise, reject_if, ◌>>=◌, ◌>>◌,
}
use coalestra.Core.Numbers.{finite, count}

pub record CapacityLimiter : Type 0 where
  pub limit : ℕ
  pub free : ℕ
  pub in_use : ℕ
  pub waiting : ℕ

-- CapacityLimiter(limit)
unfoldable pub capacity_limiter : ℤ → Result CapacityLimiter
capacity_limiter limit = do
  reject_if (ltb_ℤ limit (pos 1)) value_error
  ok (record { limit = count (finite limit); free = count (finite limit); in_use = 0; waiting = 0 })

-- how a wait for the semaphore ends
pub data Wait : Type 0 where
  granted interrupted : Wait

-- `acquire` from its wait on; none where a slot is granted that is not free
unfoldable pub end_wait : Wait → CapacityLimiter → Option (CapacityLimiter × Result (Unit {0}))
end_wait interrupted l = some (record l { waiting = l.waiting - 1 }, raise cancelled_error)
end_wait granted l =
    if ltb 0 l.free
    then some
        (record l { free = l.free - 1; waiting = l.waiting - 1; in_use = l.in_use + 1 }, ok tt)
    else none

unfoldable pub acquire_slot : Wait → CapacityLimiter → Option (CapacityLimiter × Result (Unit {0}))
unfolding end_wait
acquire_slot w l = end_wait w (record l { waiting = l.waiting + 1 })

unfoldable pub release_slot : CapacityLimiter → CapacityLimiter × Result (Unit {0})
release_slot l =
    if l.in_use == 0
    then (l, raise runtime_error)
    else (record l { in_use = l.in_use - 1; free = l.free + 1 }, ok tt)

pub record CapacityController : Type 0 where
  pub global_limiter : CapacityLimiter
  pub source_limits : List (String × ℕ)
  pub source_limiters : List (String × CapacityLimiter)

-- a limiter of the controller: the global one, or a source's
pub data Slot : Type 0 where
  global : Slot
  source : String → Slot

pub record CapacityLease : Type 0 where
  pub limiters : List Slot
  pub released : Bool

unfoldable pub limiter_at : CapacityController → Slot → Option CapacityLimiter
limiter_at c global = some c.global_limiter
limiter_at c (source name) = lookup String-discrete name c.source_limiters

unfoldable pub with_limiter : CapacityController → Slot → CapacityLimiter → CapacityController
with_limiter c global l = record c { global_limiter = l }
with_limiter c (source name) l = record c {
  source_limiters = put String-discrete name l c.source_limiters;
}

-- `_normalize_source`; `strip` is `str.strip`
unfoldable pub normalize_source : (String → String) → String → Result String
normalize_source strip name = elim (String-discrete (strip name) "") [
  | yes _ ↦ raise value_error
  | no _ ↦ ok (strip name)
]

unfoldable pub validate_limit : ℤ → Result ℕ
validate_limit limit = do reject_if (ltb_ℤ limit (pos 1)) value_error; ok (count (finite limit))

abbrev release_found :
    CapacityController → Slot → Option CapacityLimiter → CapacityController × Result (Unit {0})
release_found c s none = (c, raise runtime_error)
release_found c s (some l) = let (l', answer) = release_slot l in (with_limiter c s l', answer)

-- limiter.release() for each of the slots; the first exception ends the loop
unfoldable pub release_all : List Slot → CapacityController → CapacityController × Result (Unit {0})
release_all [] c = (c, ok tt)
release_all (s ∷ slots) c =
    let first = release_found c s (limiter_at c s) in
    let rest = release_all slots first.0 in
    elim first.1 [ raise e ↦ (first.0, raise e) | ok _ ↦ rest ]

-- CapacityLease.release; the slots are kept in the order of release
unfoldable pub release :
    CapacityController → CapacityLease → CapacityController × CapacityLease × Result (Unit {0})
unfolding release_all
release c lease =
    if lease.released
    then (c, lease, ok tt)
    else let done = release_all lease.limiters c in
      (done.0, record lease { released = true }, done.1)

-- the answer of `acquire`: the controller, and a lease or an exception; none while it waits
abbrev pub Acquired : Type 0
Acquired = Option (CapacityController × Result CapacityLease)

-- the `except` of `acquire`: what was acquired is released, and the exception goes on
unfoldable pub roll_back :
    List Slot → CapacityController → Error → CapacityController × Result CapacityLease
unfolding release_all
roll_back acquired c e = elim (release_all acquired c).1 [
  | ok _ ↦ ((release_all acquired c).0, raise e)
  | raise f ↦ ((release_all acquired c).0, raise f)
]

acquired_slot :
    (CapacityController → Acquired)
    → List Slot
    → CapacityController
    → Slot
    → Option (CapacityLimiter × Result (Unit {0}))
    → Acquired
unfolding roll_back
acquired_slot next acquired c s none = none
acquired_slot next acquired c s (some (l, raise e)) =
    some (roll_back acquired (with_limiter c s l) e)
acquired_slot next acquired c s (some (l, ok _)) = next (with_limiter c s l)

-- the loop of `acquire` over its limiters, each with the end of its wait
unfoldable pub acquire_all : List Slot → List Wait → List Slot → CapacityController → Acquired
unfolding acquired_slot
acquire_all [] waits acquired c = some (c, ok (record { limiters = acquired; released = false }))
acquire_all (s ∷ slots) [] acquired c = none
acquire_all (s ∷ slots) (w ∷ waits) acquired c = elim (limiter_at c s) [
  | none ↦ none
  | some l ↦ acquired_slot (acquire_all slots waits (s ∷ acquired)) acquired c s (acquire_slot w l)
]

abbrev pub slots_for : CapacityController → String → List Slot
slots_for c name = elim (lookup String-discrete name c.source_limiters) [
  | none ↦ global ∷ []
  | some _ ↦ source name ∷ global ∷ []
]

unfoldable pub acquire_normalized : CapacityController → List Wait → Result String → Acquired
unfolding acquire_all
acquire_normalized c waits (raise e) = some (c, raise e)
acquire_normalized c waits (ok name) = acquire_all (slots_for c name) waits [] c

-- with no other task in between, but where it waits
unfoldable pub acquire : (String → String) → CapacityController → String → List Wait → Acquired
unfolding normalize_source acquire_normalized
acquire strip c name waits = acquire_normalized c waits (normalize_source strip name)

-- `register_source` with a limit, once name and limit are checked
unfoldable pub register_checked :
    CapacityController → String → ℕ → Option ℕ → CapacityController × Result (Unit {0})
register_checked c name limit existing =
    let fresh : CapacityLimiter = record { limit = limit; free = limit; in_use = 0; waiting = 0 } in
    let limiter : CapacityLimiter = elim (lookup String-discrete name c.source_limiters) [
      | none ↦ fresh
      | some l ↦ l
    ] in
    let registered : CapacityController = record c {
      source_limits = put String-discrete name limit c.source_limits;
      source_limiters = put String-discrete name limiter c.source_limiters;
    } in
    elim existing [
      | none ↦ (registered, ok tt)
      | some old ↦ elim (ℕ_discrete old limit) [
        | yes _ ↦ (registered, ok tt)
        | no _ ↦ (c, raise value_error)
      ]
    ]

abbrev register_validated :
    CapacityController → Result (String × ℕ) → CapacityController × Result (Unit {0})
register_validated c (raise e) = (c, raise e)
register_validated c (ok (name, limit)) =
    register_checked c name limit (lookup String-discrete name c.source_limits)

unfoldable pub register_source :
    (String → String)
    → CapacityController
    → String
    → Option ℤ
    → CapacityController × Result (Unit {0})
unfolding normalize_source register_checked validate_limit
register_source strip c name none = (c, ok tt)
register_source strip c name (some limit) = register_validated c (do
  normalized ← normalize_source strip name
  checked ← validate_limit limit
  ok (normalized, checked))

unfoldable pub limit_for : (String → String) → CapacityController → String → Result (Option ℕ)
limit_for strip c name = do
  normalized ← normalize_source strip name
  ok (lookup String-discrete normalized c.source_limits)
