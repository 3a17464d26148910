-- ===== src/Tests/Dispatch.antt =====
-- Bounded dispatch: two workers, three items, and the second is answered first.
use coalestra.Prelude.{ℕ, pos, ◌+◌, ◌≡◌, refl, none, List, [], ◌∷◌, ℕ_discrete}
use coalestra.Dict.{lookup, put}
use coalestra.Core.Errors.{Result, ok, each}
use coalestra.Concurrency.Dispatch.{looking, Dispatch, Event, looks, ends, start, run, answer}
use coalestra.Concurrency.Dispatch.Done.{run-answer}

program : Unit {0}
unfolding start run answer lookup put ℕ_discrete each
program = tt

abbrev operation : ℕ → Result ℕ
operation n = ok (n + 100)

abbrev items : List ℕ
items = 1 ∷ 2 ∷ 3 ∷ []

abbrev begun : Dispatch ℕ
begun = record { next_index = 0; results = []; workers = looking ∷ looking ∷ []; failure = none }

abbrev events : List Event
events = looks 0 ∷ looks 1 ∷ ends 1 ∷ looks 1 ∷ ends 0 ∷ looks 0 ∷ ends 1 ∷ looks 1 ∷ []

answered : answer operation items (run operation items begun events) ≡ ok (101 ∷ 102 ∷ 103 ∷ [])
unfolding program
answered = refl

run-answer_example :
    answer operation items (run operation items begun events) ≡ each operation items
unfolding program
run-answer_example = run-answer operation items (pos 2) events refl (tt, (tt, tt)) refl
