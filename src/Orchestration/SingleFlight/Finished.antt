-- ===== src/Orchestration/SingleFlight/Finished.antt =====
-- orchestration/singleflight.py: the end of all producers.
use coalestra.Prelude.{
  ℕ, ◌<◌, ◌≡◌, ◌≢◌, refl, All, false, Option, none, some, List, [], ◌∷◌, arith, any, ℕ_discrete,
}
use coalestra.Dict.{lookup, contains}
use coalestra.Orchestration.SingleFlight.{Producer, running, completing, SingleFlight}
use coalestra.Orchestration.SingleFlight.Run.{Event, run, covers}
use coalestra.Orchestration.SingleFlight.Shared.{IsShared, run-IsShared}

module _ {K T : Type 0} (dec : Discrete K) where
  abbrev pub IsFinished : Producer K T → Type 0
  IsFinished (running owned) = ⊥
  IsFinished (completing owned []) = Unit
  IsFinished (completing owned (_ ∷ _)) = ⊥

  finished-covers :
      (k : K) (ps : List (Producer K T)) → All IsFinished ps → any (covers dec k) ps ≡ false
  unfolding contains
  finished-covers k [] h = refl
  finished-covers k (completing owned [] ∷ ps) (f, h) = finished-covers k ps h
  finished-covers k (running owned ∷ ps) (f, h) = absurd f
  finished-covers k (completing owned (x ∷ left) ∷ ps) (f, h) = absurd f

  none_in_flight :
      (s : SingleFlight K T)
      → IsShared dec s
      → All IsFinished s.producers
      → (k : K) (o : Option ℕ) → lookup dec k s.tasks ≡ o
      → o ≡ none
  unfolding contains
  none_in_flight s h f k none e = refl
  none_in_flight s h f k (some future) e =
      ground (arith, h.sound.covered k future e, finished-covers k s.producers f)

  -- Where every producer has completed what it had, no key is in flight and no future is pending, if
  -- keys in flight had their futures and producers at first.
  pub finished-done :
      (events : List (Event K T)) (s : SingleFlight K T)
      → IsShared dec s
      → All IsFinished (run dec s events).producers
      → ((k : K) → lookup dec k (run dec s events).tasks ≡ none)
        × ((f : ℕ)
            → f < (run dec s events).next
            → lookup ℕ_discrete f (run dec s events).done ≢ none)
  finished-done events s h f =
      let last = run dec s events in
      let shared = run-IsShared dec events s h in
      (
        λ k. none_in_flight last shared f k (lookup dec k last.tasks) refl,
        λ g l e.
            let (k, w) = shared.sound.waited g l e in
            cc (none_in_flight last shared f k (some g) w),
      )
