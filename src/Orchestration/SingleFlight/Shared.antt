-- ===== src/Orchestration/SingleFlight/Shared.antt =====
-- orchestration/singleflight.py: what holds after any steps of callers and producers.
use coalestra.Prelude.{
  ℕ, zero, suc, ◌≡◌, refl, sym, subst, ◌∙◌, All, inl, inr, true, Option, none, some, List, [], ◌∷◌,
  arith, Option-cases,
}
use coalestra.Dict.{lookup, contains, unique}
use coalestra.Core.Errors.{Result}
use coalestra.Orchestration.SingleFlight.{
  Producer, running, completing, SingleFlight, Reservation, key_list, reserve_one, reserve_all,
  start_producer, run_many, resolve, complete, produced, complete_next, interrupt,
}
use coalestra.Orchestration.SingleFlight.Run.{
  Event, asks, produces, completes, interrupts, get_elem?, set, go_on, change, step, run, covers,
  covers-set,
}
use coalestra.Orchestration.SingleFlight.Invariant.{IsSound, run_many-IsSound, recovered}
use coalestra.Orchestration.SingleFlight.Complete.{complete-IsSound}
use coalestra.Orchestration.SingleFlight.Steps.{
  Owns, produced-covers, interrupt-covers, complete_next-covers, produced-Owns, interrupt-Owns,
}

All-set :
    {A : Type 0} (P : A → Type 0) (xs : List A) (i : ℕ) (x : A)
    → All P xs
    → P x
    → All P (set xs i x)
All-set P [] i x h p = tt
All-set P (y ∷ xs) zero x (q, h) p = (p, h)
All-set P (y ∷ xs) (suc i) x (q, h) p = (q, All-set P xs i x h p)

All-get :
    {A : Type 0} (P : A → Type 0) (xs : List A) (i : ℕ) (x : A)
    → All P xs
    → get_elem? xs i ≡ some x
    → P x
All-get P [] i x h e = cc
All-get P (y ∷ xs) zero x (q, h) e = subst P (ground (arith, e)) q
All-get P (y ∷ xs) (suc i) x (q, h) e = All-get P xs i x h e

module _ {K T : Type 0} (dec : Discrete K) where
  -- Each key in flight has a pending future and a producer, each pending future a key in flight, and
  -- no producer has keys that it does not own.
  pub record IsShared (s : SingleFlight K T) : Type 0 where
    pub sound : IsSound dec s
    pub owning : All (Owns dec) s.producers

  start-owning :
      (s : SingleFlight K T) (owned : List K)
      → All (Owns dec) s.producers
      → All (Owns dec) (start_producer dec s owned).producers
  unfolding start_producer
  start-owning s [] h = h
  start-owning s (k ∷ owned) h = (tt, h)

  reserve_all-producers :
      (keys : List K) (r : Reservation K T)
      → (reserve_all dec keys r).flight.producers ≡ r.flight.producers
  unfolding reserve_all reserve_one
  reserve_all-producers [] r = refl
  reserve_all-producers (key ∷ keys) r = elim (Option-cases (lookup dec key r.flight.tasks)) [
    | inl e ↦
        reserve_all-producers keys (reserve_one dec key (lookup dec key r.flight.tasks) r) ∙ rw e
    | inr (f, e) ↦
        reserve_all-producers keys (reserve_one dec key (lookup dec key r.flight.tasks) r) ∙ rw e
  ]

  asks-IsShared :
      (keys : List K) (s : SingleFlight K T) → IsShared s → IsShared (run_many dec keys s).0
  unfolding run_many
  asks-IsShared keys s h =
      let r : Reservation K T = record { flight = s; tickets = []; owned = [] } in
      let r' = reserve_all dec (unique dec keys) r in
      record {
        sound = run_many-IsSound dec keys s h.sound;
        owning =
            start-owning r'.flight r'.owned
              (rw (reserve_all-producers (unique dec keys) r) h.owning);
      }

  change-IsShared :
      (s : SingleFlight K T) (i : ℕ) (f : Producer K T → Producer K T) (o : Option (Producer K T))
      → get_elem? s.producers i ≡ o
      → ((k : K) (p : Producer K T)
          → Owns dec p
          → covers dec k p ≡ true
          → covers dec k (f p) ≡ true)
      → ((p : Producer K T) → Owns dec p → Owns dec (f p))
      → IsShared s
      → IsShared (change dec s i f o)
  change-IsShared s i f none e c o h = h
  change-IsShared s i f (some p) e c o h =
      let owns = All-get (Owns dec) s.producers i p h.owning e in
      record {
        sound =
            recovered dec s (set s.producers i (f p))
              (λ q. covers-set dec q i s.producers p (f p) e (c q p owns)) h.sound;
        owning = All-set (Owns dec) s.producers i (f p) h.owning (o p owns);
      }

  complete-producers :
      (key : K) (outcome : Result T) (s : SingleFlight K T)
      → (complete dec key outcome s).producers ≡ s.producers
  unfolding complete resolve
  complete-producers key outcome s = ground arith

  rest-Owns :
      (owned : List K) (key : K) (outcome : Result T) (left : List (K × Result T))
      → Owns dec (completing owned ((key, outcome) ∷ left))
      → ((k : K) → contains dec k (key_list left) ≡ true → contains dec k owned ≡ true)
  unfolding contains
  rest-Owns owned key outcome left o k c = o k (ground (arith, c))

  completed-IsShared :
      (s : SingleFlight K T) (i : ℕ) (owned : List K) (key : K) (outcome : Result T)
      (left : List (K × Result T))
      → get_elem? s.producers i ≡ some (completing owned ((key, outcome) ∷ left))
      → IsShared s
      → IsShared (record (complete dec key outcome s) {
        producers = set s.producers i (completing owned left);
      })
  completed-IsShared s i owned key outcome left e h =
      let old : Producer K T = completing owned ((key, outcome) ∷ left) in
      let new : Producer K T = completing owned left in
      let owns = All-get (Owns dec) s.producers i old h.owning e in
      record {
        sound = complete-IsSound dec s h.sound key outcome (set s.producers i new) (λ q n.
            covers-set dec q i s.producers old new e (complete_next-covers dec q key left n));
        owning =
            All-set (Owns dec) s.producers i new h.owning (rest-Owns owned key outcome left owns);
      }

  go_on-IsShared :
      (s : SingleFlight K T) (i : ℕ) (o : Option (Producer K T))
      → get_elem? s.producers i ≡ o
      → IsShared s
      → IsShared (go_on dec s i o)
  unfolding complete_next complete
  go_on-IsShared s i none e h = h
  go_on-IsShared s i (some (running owned)) e h =
      change-IsShared s i (λ p. p) (some (running owned)) e (λ k p o c. c) (λ p o. o) h
  go_on-IsShared s i (some (completing owned [])) e h =
      change-IsShared s i (λ p. p) (some (completing owned [])) e (λ k p o c. c) (λ p o. o) h
  go_on-IsShared s i (some (completing owned ((key, outcome) ∷ left))) e h =
      subst
        (λ ps.
          IsShared
            (record (complete dec key outcome s) { producers = set ps i (completing owned left) }))
        (sym (complete-producers key outcome s)) (completed-IsShared s i owned key outcome left e h)

  step-IsShared : (s : SingleFlight K T) (e : Event K T) → IsShared s → IsShared (step dec s e)
  step-IsShared s (asks keys) h = asks-IsShared keys s h
  step-IsShared s (produces i result) h =
      change-IsShared s i (λ p. produced dec p result) (get_elem? s.producers i) refl
        (λ k p o. produced-covers dec k p result) (λ p. produced-Owns dec p result) h
  step-IsShared s (completes i) h = go_on-IsShared s i (get_elem? s.producers i) refl h
  step-IsShared s (interrupts i) h =
      change-IsShared s i (λ p. interrupt dec p) (get_elem? s.producers i) refl
        (λ k p. interrupt-covers dec k p) (λ p. interrupt-Owns dec p) h

  -- However callers ask, factories end and producers are interrupted, each key in flight has a
  -- pending future of its own and a producer that is to complete it, each pending future is that of
  -- a key in flight, and no producer has keys left that it does not own, if this holds at first.
  pub run-IsShared :
      (events : List (Event K T)) (s : SingleFlight K T) → IsShared s → IsShared (run dec s events)
  unfolding run
  run-IsShared [] s h = h
  run-IsShared (e ∷ events) s h = run-IsShared events (step dec s e) (step-IsShared s e h)
