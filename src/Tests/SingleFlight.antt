-- ===== src/Tests/SingleFlight.antt =====
-- Single flight: two callers that ask for overlapping keys.
use coalestra.Prelude.{ℕ, ◌<◌, ◌≡◌, ◌≢◌, refl, none, List, [], ◌∷◌, ℕ_discrete, arith, All}
use coalestra.Dict.{lookup, pop, put, contains, unique, without}
use coalestra.Core.Errors.{ok, raise, value_error}
use coalestra.Orchestration.SingleFlight.{
  SingleFlight, run_many, produced, complete_next, interrupt,
}
use coalestra.Orchestration.SingleFlight.Run.{Event, asks, produces, completes, interrupts, run}
use coalestra.Orchestration.SingleFlight.Shared.{IsShared, run-IsShared}
use coalestra.Orchestration.SingleFlight.Finished.{finished-done}
use coalestra.Orchestration.SingleFlight.Tickets.{IsAnswered, ticket_keys, run_many-IsAnswered}

program : Unit {0}
unfolding run run_many produced complete_next interrupt lookup pop put contains unique without
    ℕ_discrete
program = tt

abbrev empty : SingleFlight ℕ ℕ
empty = record { tasks = []; next = 0; done = []; producers = [] }

-- the second caller joins 2 and owns 3; the first producer fails, the second answers
abbrev events : List (Event ℕ ℕ)
events =
    asks (1 ∷ 2 ∷ [])
    ∷ asks (2 ∷ 3 ∷ [])
    ∷ produces 1 (raise value_error)
    ∷ completes 1
    ∷ produces 0 (ok ((3, 30) ∷ []))
    ∷ completes 0
    ∷ interrupts 1
    ∷ completes 1
    ∷ completes 1
    ∷ []

empty-IsShared : IsShared ℕ_discrete empty
unfolding lookup
empty-IsShared = record {
  sound = record {
    fresh = λ f l. refl;
    created = λ k f e. cc e;
    pending = λ k f e. refl;
    covered = λ k f e. cc e;
    distinct = λ k j f e g. cc e;
    waited = λ f l p. absurd (omega (arith, l));
  };
  owning = tt;
}

run-IsShared_example : IsShared ℕ_discrete (run ℕ_discrete empty events)
run-IsShared_example = run-IsShared ℕ_discrete events empty empty-IsShared

finished-done_example :
    ((k : ℕ) → lookup ℕ_discrete k (run ℕ_discrete empty events).tasks ≡ none)
    × ((f : ℕ)
        → f < (run ℕ_discrete empty events).next
        → lookup ℕ_discrete f (run ℕ_discrete empty events).done ≢ none)
unfolding program
finished-done_example = finished-done ℕ_discrete events empty empty-IsShared (tt, (tt, tt))

abbrev asked : SingleFlight ℕ ℕ
asked = record empty { tasks = (2, 0) ∷ []; next = 1 }

run_many-IsAnswered_example :
    let (s', tickets) = run_many ℕ_discrete (2 ∷ 3 ∷ 2 ∷ []) asked in
    (ticket_keys tickets ≡ unique ℕ_discrete (2 ∷ 3 ∷ 2 ∷ []))
    × All (IsAnswered ℕ_discrete asked s') tickets
run_many-IsAnswered_example = run_many-IsAnswered ℕ_discrete asked (2 ∷ 3 ∷ 2 ∷ [])
