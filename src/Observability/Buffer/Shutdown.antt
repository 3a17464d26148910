-- ===== src/Observability/Buffer/Shutdown.antt =====
-- observability/buffered.py: the worker's loop `_run`, up to the sentinel.
use coalestra.Prelude.{◌+◌, ◌≡◌, ap, ◌∙◌, Bool, List, [], ◌∷◌, ◌++◌, length, map, arith}
use coalestra.Observability.Buffer.{
  Entry, entry, sentinel, idle, stopped, Dispatcher, take_entry, worker_get, worker_handle,
  worker_finish,
}
use coalestra.Observability.Buffer.Run.{Event, gets, finishes, handles, step, run}
use coalestra.Observability.Buffer.Order.{all_handed}

module _ {T : Type 0} where
  -- the worker's rounds, one for each outcome of the handler, and its last `get`
  unfoldable pub rounds : List Bool → List (Event T)
  rounds [] = gets ∷ []
  rounds (success ∷ more) = gets ∷ handles success ∷ finishes ∷ rounds more

  -- the worker has returned, and has had the records `rs` handled since `d`
  pub record IsServed (d : Dispatcher T) (rs : List T) (oks : List Bool) : Type 0 where
    pub returned : (run d (rounds oks)).worker ≡ stopped
    pub given : all_handed d (rounds oks) ≡ rs
    pub counted :
        (run d (rounds oks)).delivered + (run d (rounds oks)).failures
        ≡ d.delivered + d.failures + length rs

  abbrev pub Waits : Dispatcher T → List T → List (Entry T) → Type 0
  Waits d rs rest = (d.worker ≡ idle) × (d.queue ≡ map entry rs ++ sentinel ∷ rest)

  -- the dispatcher after one round
  after_round : Dispatcher T → Bool → Dispatcher T
  after_round d success = step (step (step d gets) (handles success)) finishes

  after_round-Waits :
      (d : Dispatcher T) (success : Bool) (r : T) (rs : List T) (rest : List (Entry T))
      → Waits d (r ∷ rs) rest
      → Waits (after_round d success) rs rest
        × ((after_round d success).delivered + (after_round d success).failures
            ≡ d.delivered + d.failures + 1)
  unfolding after_round worker_get take_entry worker_handle worker_finish
  after_round-Waits d success r rs rest (w, q) = ground arith

  round_given :
      (d : Dispatcher T) (success : Bool) (r : T) (rs : List T) (rest : List (Entry T))
      (more : List Bool)
      → Waits d (r ∷ rs) rest
      → all_handed d (rounds (success ∷ more))
        ≡ r ∷ all_handed (after_round d success) (rounds more)
  unfolding after_round rounds all_handed worker_get take_entry worker_handle worker_finish
  round_given d success r rs rest more (w, q) = ground arith

  -- Once the sentinel is in the queue, an idle worker that goes on handles the records before it, in
  -- their order, whether the handler returns or raises an Exception, counts each, and returns.
  pub worker_stops :
      (oks : List Bool) (rs : List T) (rest : List (Entry T)) (d : Dispatcher T)
      → length oks ≡ length rs
      → Waits d rs rest
      → IsServed d rs oks
  unfolding rounds run all_handed worker_get take_entry after_round
  worker_stops [] [] rest d e (w, q) = record {
    returned = ground arith;
    given = ground arith;
    counted = ground arith;
  }
  worker_stops [] (r ∷ rs) rest d e h = absurd (omega arith)
  worker_stops (success ∷ oks) [] rest d e h = absurd (omega arith)
  worker_stops (success ∷ oks) (r ∷ rs) rest d e h =
      let next = after_round-Waits d success r rs rest h in
      let served = worker_stops oks rs rest (after_round d success) (omega (arith, e)) next.0 in
      record {
        returned = served.returned;
        given = round_given d success r rs rest oks h ∙ ap (λ l. r ∷ l) served.given;
        counted = omega (arith, served.counted, next.1);
      }
