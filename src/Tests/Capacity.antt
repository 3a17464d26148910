-- ===== src/Tests/Capacity.antt =====
-- Capacity: two slots for all calls, one of them for the source "rest".
use coalestra.Prelude.{ℕ, ◌≡◌, refl, String-discrete, true, false, [], ◌∷◌, arith}
use coalestra.Dict.{lookup, put}
use coalestra.Core.Errors.{ok, cancelled_error}
use coalestra.Concurrency.Capacity.{
  CapacityLimiter, granted, interrupted, CapacityController, CapacityLease, global, source,
  limiter_at, with_limiter, acquire_slot, end_wait, release_slot, release, roll_back, acquire,
}
use coalestra.Concurrency.Capacity.Release.{acquire_rolls_back, acquire-release}
use coalestra.Concurrency.Capacity.Invariant.{
  enters, ends, releases, registers, run, IsWithin, run-IsWithin,
}

program : Unit {0}
unfolding acquire roll_back release release_slot acquire_slot end_wait limiter_at with_limiter
    lookup put String-discrete run
program = tt

abbrev limiter : ℕ → CapacityLimiter
limiter n = record { limit = n; free = n; in_use = 0; waiting = 0 }

abbrev controller : CapacityController
controller = record {
  global_limiter = limiter 2;
  source_limits = ("rest", 1) ∷ [];
  source_limiters = ("rest", limiter 1) ∷ [];
}

acquire_rolls_back_example : controller ≡ controller
unfolding program
acquire_rolls_back_example =
    acquire_rolls_back (λ s. s) controller controller "rest" (granted ∷ interrupted ∷ [])
      cancelled_error refl

abbrev used : CapacityController
used = record controller {
  global_limiter = record (limiter 2) { free = 1; in_use = 1 };
  source_limiters = ("rest", record (limiter 1) { free = 0; in_use = 1 }) ∷ [];
}

abbrev lease : CapacityLease
lease = record { limiters = global ∷ source "rest" ∷ []; released = false }

acquire-release_example :
    (release used lease ≡ (controller, record lease { released = true }, ok tt))
    × (release controller (record lease { released = true })
        ≡ (controller, record lease { released = true }, ok tt))
unfolding program
acquire-release_example =
    acquire-release (λ s. s) controller used "rest" (granted ∷ granted ∷ []) lease refl

controller-IsWithin : IsWithin controller
unfolding program
controller-IsWithin global l e = ground arith
controller-IsWithin (source k) l e = ground arith

run-IsWithin_example : IsWithin (
    run controller
      (enters global ∷ ends granted global ∷ registers "stream" 3 ∷ releases global ∷ []))
run-IsWithin_example =
    run-IsWithin (enters global ∷ ends granted global ∷ registers "stream" 3 ∷ releases global ∷ [])
      controller controller-IsWithin
