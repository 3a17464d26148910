-- ===== src/Observability/Buffer/Run.antt =====
-- observability/buffered.py: what the threads do to a dispatcher, one step after the other.
use coalestra.Prelude.{Bool, List, [], ◌∷◌}
use coalestra.Observability.Buffer.{
  Entry, entry, sentinel, Dispatcher, worker_get, worker_handle, worker_escape, worker_finish,
  submit, begin_close, discard_entry, count_discarded, mark_sentinel, put_sentinel, end_close,
}

-- A step of some thread. `submits race r` is a whole submission.
pub data Event (T : Type 0) : Type 0 where
  submits : Bool → T → Event T
  gets escapes finishes begins_close discards counts marks puts_sentinel : Event T
  handles : Bool → Event T
  ends_close : Bool → Event T

abbrev pub step : {T : Type 0} → Dispatcher T → Event T → Dispatcher T
step d (submits race r) = (submit race d r).0
step d gets = worker_get d.worker d
step d (handles success) = worker_handle d.worker success d
step d escapes = worker_escape d.worker d
step d finishes = worker_finish d.worker d
step d begins_close = (begin_close d).0
step d discards = (discard_entry d d.queue).0
step d counts = count_discarded d
step d marks = (mark_sentinel d).0
step d puts_sentinel = (put_sentinel d).0
step d (ends_close alive) = (end_close d alive).0

unfoldable pub run : {T : Type 0} → Dispatcher T → List (Event T) → Dispatcher T
run d [] = d
run d (e ∷ events) = run (step d e) events

-- the records of the queue, first to last
abbrev pub records : {T : Type 0} → List (Entry T) → List T
records [] = []
records (entry r ∷ rest) = r ∷ records rest
records (sentinel ∷ rest) = records rest
