-- ===== src/Concurrency/Dispatch.antt =====
-- concurrency/dispatch.py: the workers of `run_bounded`, each step what a worker does between two awaits
-- or a part of it. `operation` is what the operation answers for an item. After a failure the workers
-- are cancelled, so nothing follows it. Health reports are left out.
pub mod Invariant
pub mod Done
use coalestra.Prelude.{
  ℕ, ℤ, zero, suc, pos, ◌+◌, min, Bool, true, false, Option, none, some, List, [], ◌∷◌, ltb, ltb_ℤ,
  length, ℕ_discrete, if◌then◌else◌,
}
use coalestra.Dict.{lookup, put}
use coalestra.Core.Errors.{Error, value_error, key_error, Result, ok, raise, reject_if, ◌>>=◌, ◌>>◌}
use coalestra.Core.Numbers.{finite, count}

-- A worker is at the test of its loop, in the operation for an index, or done.
pub data Worker : Type 0 where
  looking : Worker
  working : ℕ → Worker
  finished : Worker

pub record Dispatch (R : Type 0) : Type 0 where
  pub next_index : ℕ
  pub results : List (ℕ × R)
  pub workers : List Worker
  pub failure : Option Error

abbrev pub get_elem? {ℓ} : {A : Type ℓ} → List A → ℕ → Option A
get_elem? [] i = none
get_elem? (x ∷ xs) zero = some x
get_elem? (x ∷ xs) (suc i) = get_elem? xs i

abbrev pub set : List Worker → ℕ → Worker → List Worker
set [] i w = []
set (x ∷ xs) zero w = w ∷ xs
set (x ∷ xs) (suc i) w = x ∷ set xs i w

unfoldable pub new_workers : ℕ → List Worker
new_workers zero = []
new_workers (suc n) = looking ∷ new_workers n

-- the event of one worker, by its place: the test of its loop, or the end of its operation
pub data Event : Type 0 where
  looks ends : ℕ → Event

module _ {D R : Type 0} (operation : D → Result R) (ordered : List D) where
  -- `run_bounded` up to its wait; no items need no workers
  unfoldable pub start : ℤ → Result (Dispatch R)
  unfolding new_workers
  start max_tasks = do
    reject_if (ltb_ℤ max_tasks (pos 1)) value_error
    ok (record {
      next_index = 0;
      results = [];
      workers = new_workers (min (count (finite max_tasks)) (length ordered));
      failure = none;
    })

  -- while next_index < len(ordered): the next index is taken
  unfoldable pub look : Dispatch R → ℕ → Dispatch R
  look s i =
      if ltb s.next_index (length ordered)
      then record s {
        next_index = s.next_index + 1;
        workers = set s.workers i (working s.next_index);
      }
      else record s { workers = set s.workers i finished }

  abbrev pub outcome_of : Option D → Result R
  outcome_of none = raise key_error
  outcome_of (some item) = operation item

  -- operation(ordered[index])
  unfoldable pub outcome_at : ℕ → Result R
  outcome_at index = outcome_of (get_elem? ordered index)

  -- results[index] = ..., or the failure of all
  unfoldable pub end_operation : Dispatch R → ℕ → ℕ → Result R → Dispatch R
  end_operation s i index (raise e) = record s { failure = some e }
  end_operation s i index (ok r) = record s {
    results = put ℕ_discrete index r s.results;
    workers = set s.workers i looking;
  }

  unfoldable pub look_if : Dispatch R → ℕ → Option Worker → Dispatch R
  unfolding look
  look_if s i (some looking) = look s i
  look_if s i _ = s

  unfoldable pub end_if : Dispatch R → ℕ → Option Worker → Dispatch R
  unfolding end_operation outcome_at
  end_if s i (some (working index)) = end_operation s i index (outcome_at index)
  end_if s i _ = s

  unfoldable pub step_on : Dispatch R → Event → Option Error → Dispatch R
  unfolding look_if end_if
  step_on s e (some failure) = s
  step_on s (looks i) none = look_if s i (get_elem? s.workers i)
  step_on s (ends i) none = end_if s i (get_elem? s.workers i)

  unfoldable pub run : Dispatch R → List Event → Dispatch R
  unfolding step_on
  run s [] = s
  run s (e ∷ events) = run (step_on s e s.failure) events

  result_at : List (ℕ × R) → ℕ → Result R
  result_at results index = elim (lookup ℕ_discrete index results) [
    | none ↦ raise key_error
    | some r ↦ ok r
  ]

  -- results[index] from an index on
  unfoldable pub results_from : List (ℕ × R) → ℕ → List D → Result (List R)
  unfolding result_at
  results_from results index [] = ok []
  results_from results index (_ ∷ rest) = do
    r ← result_at results index
    others ← results_from results (index + 1) rest
    ok (r ∷ others)

  -- the answer of `run_bounded` once its workers are done or one has failed
  unfoldable pub answer_on : Dispatch R → Option Error → Result (List R)
  unfolding results_from
  answer_on s (some e) = raise e
  answer_on s none = results_from s.results 0 ordered

  unfoldable pub answer : Dispatch R → Result (List R)
  unfolding answer_on
  answer s = answer_on s s.failure
