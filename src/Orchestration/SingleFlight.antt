-- ===== src/Orchestration/SingleFlight.antt =====
-- orchestration/singleflight.py. Futures are numbered as they are created, and a future is pending
-- until `done` has its outcome. Each function is what a task does between two awaits; a producer task
-- is in the factory, or completes the keys that it owns one by one. Left out: a task that is cancelled
-- before it starts.
pub mod Run
pub mod Invariant
pub mod Complete
pub mod Steps
pub mod Shared
pub mod Finished
pub mod Tickets
use coalestra.Prelude.{
  ℕ, zero, suc, ◌+◌, Bool, true, false, Option, none, some, List, [], ◌∷◌, ◌++◌, ◌||◌, ℕ_discrete,
  length,
}
use coalestra.Dict.{lookup, pop, put, contains, unique}
use coalestra.Core.Errors.{Error, runtime_error, cancelled_error, Result, ok, raise}

-- A producer task: in the factory for its keys, or with keys left to complete.
pub data Producer (K T : Type 0) : Type 0 where
  running : List K → Producer K T
  completing : List K → List (K × Result T) → Producer K T

pub record SingleFlight (K T : Type 0) : Type 0 where
  pub tasks : List (K × ℕ)
  pub next : ℕ
  pub done : List (ℕ × Result T)
  pub producers : List (Producer K T)

-- A key that a caller waits for, its future, and whether it joined an existing one.
pub record Ticket (K : Type 0) : Type 0 where
  pub key : K
  pub future : ℕ
  pub joined : Bool

-- the locals of `run_many` in its loop under the lock
pub record Reservation (K T : Type 0) : Type 0 where
  pub flight : SingleFlight K T
  pub tickets : List (Ticket K)
  pub owned : List K

abbrev pub key_list : {K V : Type 0} → List (K × V) → List K
key_list [] = []
key_list ((k, _) ∷ rest) = k ∷ key_list rest

unfoldable pub in_flight : {K T : Type 0} → SingleFlight K T → ℕ
in_flight s = length s.tasks

module _ {K T : Type 0} (dec : Discrete K) where
  -- the body of the loop over the unique keys
  unfoldable pub reserve_one : K → Option ℕ → Reservation K T → Reservation K T
  reserve_one key (some future) r = record r {
    tickets = r.tickets ++ record { key = key; future = future; joined = true } ∷ [];
  }
  reserve_one key none r = record {
    flight = record r.flight {
      tasks = put dec key r.flight.next r.flight.tasks;
      next = r.flight.next + 1;
    };
    tickets = r.tickets ++ record { key = key; future = r.flight.next; joined = false } ∷ [];
    owned = r.owned ++ key ∷ [];
  }

  unfoldable pub reserve_all : List K → Reservation K T → Reservation K T
  unfolding reserve_one
  reserve_all [] r = r
  reserve_all (key ∷ keys) r = reserve_all keys (reserve_one key (lookup dec key r.flight.tasks) r)

  -- a producer task for the owned keys, if there are any
  unfoldable pub start_producer : SingleFlight K T → List K → SingleFlight K T
  start_producer s [] = s
  start_producer s (key ∷ owned) = record s { producers = running (key ∷ owned) ∷ s.producers }

  abbrev pub started : Reservation K T → SingleFlight K T × List (Ticket K)
  started r = (start_producer r.flight r.owned, r.tickets)

  -- `run_many` up to its wait
  unfoldable pub run_many : List K → SingleFlight K T → SingleFlight K T × List (Ticket K)
  unfolding reserve_all start_producer
  run_many keys s =
      started (reserve_all (unique dec keys) (record { flight = s; tickets = []; owned = [] }))

  -- every owned key fails with the error
  unfoldable pub fail_all : List K → Error → List (K × Result T)
  fail_all [] e = []
  fail_all (key ∷ keys) e = (key, raise e) ∷ fail_all keys e

  -- produced[key] for each owned key, or none where one is missing
  unfoldable pub values_for : List (K × T) → List K → Option (List (K × Result T))
  values_for produced [] = some []
  values_for produced (key ∷ keys) = elim (lookup dec key produced) [
    | none ↦ none
    | some value ↦ elim (values_for produced keys) [
      | none ↦ none
      | some rest ↦ some ((key, ok value) ∷ rest)
    ]
  ]

  -- the values, or a failure of all where one is missing
  unfoldable pub or_fail : List K → Option (List (K × Result T)) → List (K × Result T)
  unfolding fail_all
  or_fail owned none = fail_all owned runtime_error
  or_fail owned (some values) = values

  -- what `_produce` is to complete once the factory has ended
  unfoldable pub outcomes : List K → Result (List (K × T)) → List (K × Result T)
  unfolding or_fail values_for
  outcomes owned (raise e) = fail_all owned e
  outcomes owned (ok produced) = or_fail owned (values_for produced owned)

  -- the future of a key that is completed, unless it is gone or done
  unfoldable pub resolve : SingleFlight K T → Option ℕ → Result T → SingleFlight K T
  resolve s none outcome = s
  resolve s (some future) outcome = elim (lookup ℕ_discrete future s.done) [
    | none ↦ record s { done = put ℕ_discrete future outcome s.done }
    | some _ ↦ s
  ]

  unfoldable pub complete : K → Result T → SingleFlight K T → SingleFlight K T
  unfolding resolve
  complete key outcome s =
      resolve (record s { tasks = pop dec key s.tasks }) (lookup dec key s.tasks) outcome

  -- the factory of a producer ends
  unfoldable pub produced : Producer K T → Result (List (K × T)) → Producer K T
  unfolding outcomes
  produced (running owned) result = completing owned (outcomes owned result)
  produced (completing owned left) result = completing owned left

  -- a producer completes the next of its keys
  unfoldable pub complete_next : Producer K T → SingleFlight K T → SingleFlight K T × Producer K T
  unfolding complete
  complete_next (running owned) s = (s, running owned)
  complete_next (completing owned []) s = (s, completing owned [])
  complete_next (completing owned ((key, outcome) ∷ left)) s =
      (complete key outcome s, completing owned left)

  -- a producer is cancelled in its factory; where it completes keys it does not wait, as nothing
  -- holds the lock over an await
  unfoldable pub interrupt : Producer K T → Producer K T
  unfolding fail_all
  interrupt (running owned) = completing owned (fail_all owned cancelled_error)
  interrupt (completing owned left) = completing owned left
