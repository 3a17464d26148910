-- ===== src/Observability/Buffer/Conserve.antt =====
-- observability/buffered.py: what becomes of each record.
use coalestra.Prelude.{ℕ, ◌+◌, ◌≡◌, refl, Bool, true, false, List, [], ◌∷◌, length, arith}
use coalestra.Core.Errors.{Result, ok, raise}
use coalestra.Observability.Buffer.{
  Entry, entry, sentinel, Worker, idle, stopped, finishing, escaping, handling, Dispatcher,
  take_entry, worker_get, worker_handle, worker_escape, worker_finish, put_record, replace_oldest,
  overflowed, submit, begin_close, discard_entry, count_discarded, mark_sentinel, put_sentinel,
  end_close, BufferOverflowPolicy, drop_oldest, drop_newest, raise_full,
}
use coalestra.Observability.Buffer.Run.{
  Event, submits, gets, escapes, finishes, begins_close, discards, counts, marks, puts_sentinel,
  handles, ends_close, step, run, records,
}
use coalestra.Observability.Buffer.Count.{length-records-put, length-records-sentinel}

-- one for an answer, none for an exception
abbrev pub answers : Result Bool → ℕ
answers (ok _) = 1
answers (raise _) = 0

module _ {T : Type 0} where
  -- one for a record that the worker has and did not count as delivered or failed yet
  abbrev pub uncounted : Worker T → ℕ
  uncounted (handling _) = 1
  uncounted _ = 0

  -- what became of the records so far
  abbrev pub settled : Dispatcher T → ℕ
  settled d = d.delivered + d.failures + d.dropped

  -- records that are not settled
  abbrev pub unsettled : Dispatcher T → ℕ
  unsettled d = length (records d.queue) + uncounted d.worker + d.in_hand

  -- one for a submission that is answered, none for one that raises
  abbrev pub answered : Dispatcher T → Event T → ℕ
  answered d (submits race r) = answers (submit race d r).1
  answered d _ = 0

  -- one for a record whose handler raises what is no Exception
  abbrev pub lost : Dispatcher T → Event T → ℕ
  lost d escapes = uncounted d.worker
  lost d _ = 0

  abbrev Conserves : Dispatcher T → ℕ → Dispatcher T → Type 0
  Conserves d n d' = settled d' + unsettled d' ≡ settled d + unsettled d + n

  take_entry-Conserves :
      (d : Dispatcher T) (q : List (Entry T))
      → d.queue ≡ q
      → d.worker ≡ idle
      → Conserves d 0 (take_entry d q)
  unfolding take_entry
  take_entry-Conserves d [] e w = ground arith
  take_entry-Conserves d (sentinel ∷ q) e w = ground arith
  take_entry-Conserves d (entry r ∷ q) e w = ground arith

  worker_get-Conserves :
      (d : Dispatcher T) (w : Worker T) → d.worker ≡ w → Conserves d 0 (worker_get w d)
  unfolding worker_get
  worker_get-Conserves d idle e = take_entry-Conserves d d.queue refl e
  worker_get-Conserves d stopped e = omega arith
  worker_get-Conserves d finishing e = omega arith
  worker_get-Conserves d escaping e = omega arith
  worker_get-Conserves d (handling r) e = omega arith

  put_record-Conserves : (d : Dispatcher T) (r : T) → Conserves d 1 (put_record d r).0
  unfolding put_record
  put_record-Conserves d r = ground (arith, length-records-put d.queue r)

  replace_oldest-Conserves :
      (d : Dispatcher T) (r : T) (q : List (Entry T))
      → d.queue ≡ q
      → Conserves d (answers (replace_oldest d r q).1) (replace_oldest d r q).0
  unfolding replace_oldest put_record
  replace_oldest-Conserves d r [] e = ground arith
  replace_oldest-Conserves d r (sentinel ∷ q) e = ground (arith, length-records-sentinel q)
  replace_oldest-Conserves d r (entry x ∷ q) e = ground (arith, length-records-put q r)

  overflowed-Conserves :
      (p : BufferOverflowPolicy) (race : Bool) (d : Dispatcher T) (r : T)
      → Conserves d (answers (overflowed p race d r).1) (overflowed p race d r).0
  unfolding overflowed
  overflowed-Conserves drop_newest race d r = ground arith
  overflowed-Conserves raise_full race d r = ground arith
  overflowed-Conserves drop_oldest true d r =
      let d' = worker_get d.worker d in
      omega
        (arith, replace_oldest-Conserves d' r d'.queue refl, worker_get-Conserves d d.worker refl)
  overflowed-Conserves drop_oldest false d r = replace_oldest-Conserves d r d.queue refl

  submit-Conserves :
      (race : Bool) (d : Dispatcher T) (r : T)
      → Conserves d (answers (submit race d r).1) (submit race d r).0
  unfolding submit
  submit-Conserves race d r =
      ground (arith, overflowed-Conserves d.overflow race d r, put_record-Conserves d r)

  worker_handle-Conserves :
      (d : Dispatcher T) (w : Worker T) (success : Bool)
      → d.worker ≡ w
      → Conserves d 0 (worker_handle w success d)
  unfolding worker_handle
  worker_handle-Conserves d w success e = ground arith

  worker_finish-Conserves :
      (d : Dispatcher T) (w : Worker T) → d.worker ≡ w → Conserves d 0 (worker_finish w d)
  unfolding worker_finish
  worker_finish-Conserves d w e = ground arith

  discard_entry-Conserves :
      (d : Dispatcher T) (q : List (Entry T)) → d.queue ≡ q → Conserves d 0 (discard_entry d q).0
  unfolding discard_entry
  discard_entry-Conserves d [] e = ground arith
  discard_entry-Conserves d (sentinel ∷ q) e = ground (arith, length-records-sentinel q)
  discard_entry-Conserves d (entry x ∷ q) e = ground arith

  count_discarded-Conserves : (d : Dispatcher T) → Conserves d 0 (count_discarded d)
  unfolding count_discarded
  count_discarded-Conserves d = ground arith

  put_sentinel-Conserves : (d : Dispatcher T) → Conserves d 0 (put_sentinel d).0
  unfolding put_sentinel
  put_sentinel-Conserves d =
      ground (arith, discard_entry-Conserves d d.queue refl, length-records-sentinel d.queue)

  worker_escape-Conserves :
      (d : Dispatcher T) (w : Worker T)
      → d.worker ≡ w
      → settled (worker_escape w d) + unsettled (worker_escape w d) + uncounted w
        ≡ settled d + unsettled d
  unfolding worker_escape
  worker_escape-Conserves d w e = ground arith

  step-Conserves :
      (d : Dispatcher T) (e : Event T)
      → settled (step d e) + unsettled (step d e) + lost d e
        ≡ settled d + unsettled d + answered d e
  unfolding begin_close mark_sentinel end_close
  step-Conserves d (submits race r) = omega (arith, submit-Conserves race d r)
  step-Conserves d gets = omega (arith, worker_get-Conserves d d.worker refl)
  step-Conserves d (handles success) =
      omega (arith, worker_handle-Conserves d d.worker success refl)
  step-Conserves d escapes = omega (arith, worker_escape-Conserves d d.worker refl)
  step-Conserves d finishes = omega (arith, worker_finish-Conserves d d.worker refl)
  step-Conserves d begins_close = ground arith
  step-Conserves d discards = omega (arith, discard_entry-Conserves d d.queue refl)
  step-Conserves d counts = omega (arith, count_discarded-Conserves d)
  step-Conserves d marks = ground arith
  step-Conserves d puts_sentinel = omega (arith, put_sentinel-Conserves d)
  step-Conserves d (ends_close alive) = ground arith

  -- the submissions of a run that are answered
  unfoldable pub total_answered : Dispatcher T → List (Event T) → ℕ
  total_answered d [] = 0
  total_answered d (e ∷ events) = answered d e + total_answered (step d e) events

  -- the records of a run whose handler raises what is no Exception
  unfoldable pub total_lost : Dispatcher T → List (Event T) → ℕ
  total_lost d [] = 0
  total_lost d (e ∷ events) = lost d e + total_lost (step d e) events

  -- Whatever the threads do, each submission that is answered is counted once: as delivered, failed
  -- or dropped, or it is in the queue, in the handler, or in the closing thread's hands. The one
  -- exception is a record whose handler raises what is no Exception, which is counted nowhere.
  pub run-Conserves :
      (events : List (Event T)) (d : Dispatcher T)
      → settled (run d events) + unsettled (run d events) + total_lost d events
        ≡ settled d + unsettled d + total_answered d events
  unfolding run total_answered total_lost
  run-Conserves [] d = omega arith
  run-Conserves (e ∷ events) d = omega (arith, run-Conserves events (step d e), step-Conserves d e)
