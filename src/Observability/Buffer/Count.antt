-- ===== src/Observability/Buffer/Count.antt =====
-- observability/buffered.py: the counters and the bound of the queue.
use coalestra.Prelude.{
  ℕ, ◌+◌, ◌-◌, ◌≤◌, ◌<◌, ◌≡◌, refl, Bool, true, false, List, [], ◌∷◌, ◌++◌, length, length-append,
  arith,
}
use coalestra.Observability.Buffer.{
  Entry, entry, sentinel, Worker, idle, stopped, finishing, escaping, handling, Dispatcher,
  take_entry, worker_get, worker_handle, worker_escape, worker_finish, put_record, replace_oldest,
  overflowed, submit, begin_close, discard_entry, count_discarded, mark_sentinel, put_sentinel,
  end_close, BufferOverflowPolicy, drop_oldest, drop_newest, raise_full,
}
use coalestra.Observability.Buffer.Run.{
  Event, submits, gets, escapes, finishes, begins_close, discards, counts, marks, puts_sentinel,
  handles, ends_close, step, run, records,
}

module _ {T : Type 0} where
  -- one for a record that the worker has and did not take off `pending` yet
  abbrev pub at_work : Worker T → ℕ
  at_work idle = 0
  at_work stopped = 0
  at_work finishing = 1
  at_work escaping = 1
  at_work (handling _) = 1

  pub length-records-put :
      (q : List (Entry T)) (r : T) → length (records (q ++ entry r ∷ [])) ≡ length (records q) + 1
  length-records-put [] r = omega arith
  length-records-put (entry x ∷ q) r = omega (arith, length-records-put q r)
  length-records-put (sentinel ∷ q) r = length-records-put q r

  pub length-records-sentinel :
      (q : List (Entry T)) → length (records (q ++ sentinel ∷ [])) ≡ length (records q)
  length-records-sentinel [] = refl
  length-records-sentinel (entry x ∷ q) = omega (arith, length-records-sentinel q)
  length-records-sentinel (sentinel ∷ q) = length-records-sentinel q

  -- `pending` counts the records in the queue and in the threads' hands; the queue keeps its bound.
  pub record IsCounted (d : Dispatcher T) : Type 0 where
    pub bounded : length d.queue ≤ d.max_pending
    pub pending_is : d.pending ≡ length (records d.queue) + at_work d.worker + d.in_hand
    pub peak : d.pending ≤ d.peak_pending

  take_entry-IsCounted :
      (d : Dispatcher T) (q : List (Entry T))
      → d.queue ≡ q
      → d.worker ≡ idle
      → IsCounted d
      → IsCounted (take_entry d q)
  unfolding take_entry
  take_entry-IsCounted d [] e w c = c
  take_entry-IsCounted d (sentinel ∷ q) e w c = ground arith
  take_entry-IsCounted d (entry r ∷ q) e w c = ground arith

  worker_get-IsCounted :
      (d : Dispatcher T) (w : Worker T) → d.worker ≡ w → IsCounted d → IsCounted (worker_get w d)
  unfolding worker_get
  worker_get-IsCounted d idle e c = take_entry-IsCounted d d.queue refl e c
  worker_get-IsCounted d stopped e c = c
  worker_get-IsCounted d finishing e c = c
  worker_get-IsCounted d escaping e c = c
  worker_get-IsCounted d (handling r) e c = c

  put_record-IsCounted :
      (d : Dispatcher T) (r : T)
      → length d.queue < d.max_pending
      → IsCounted d
      → IsCounted (put_record d r).0
  unfolding put_record
  put_record-IsCounted d r h c =
      ground (arith, length-records-put d.queue r, length-append d.queue (entry r ∷ []))

  replace_oldest-IsCounted :
      (d : Dispatcher T) (r : T) (q : List (Entry T))
      → d.queue ≡ q
      → IsCounted d
      → IsCounted (replace_oldest d r q).0
  unfolding replace_oldest
  replace_oldest-IsCounted d r [] e c = ground arith
  replace_oldest-IsCounted d r (sentinel ∷ q) e c =
      ground (arith, length-records-sentinel q, length-append q (sentinel ∷ []))
  replace_oldest-IsCounted d r (entry x ∷ q) e c =
      put_record-IsCounted
        (record d { queue = q; dropped = d.dropped + 1; pending = d.pending - 1 }) r (ground arith)
        (ground arith)

  overflowed-IsCounted :
      (p : BufferOverflowPolicy) (race : Bool) (d : Dispatcher T) (r : T)
      → IsCounted d
      → IsCounted (overflowed p race d r).0
  unfolding overflowed
  overflowed-IsCounted drop_newest race d r c = ground arith
  overflowed-IsCounted raise_full race d r c = c
  overflowed-IsCounted drop_oldest true d r c =
      replace_oldest-IsCounted (worker_get d.worker d) r (worker_get d.worker d).queue refl
        (worker_get-IsCounted d d.worker refl c)
  overflowed-IsCounted drop_oldest false d r c = replace_oldest-IsCounted d r d.queue refl c

  submit-IsCounted :
      (race : Bool) (d : Dispatcher T) (r : T) → IsCounted d → IsCounted (submit race d r).0
  unfolding submit
  submit-IsCounted race d r c =
      ground (arith, overflowed-IsCounted d.overflow race d r c, put_record-IsCounted d r)

  worker_handle-IsCounted :
      (d : Dispatcher T) (w : Worker T) (success : Bool)
      → d.worker ≡ w
      → IsCounted d
      → IsCounted (worker_handle w success d)
  unfolding worker_handle
  worker_handle-IsCounted d w success e c = ground arith

  worker_escape-IsCounted :
      (d : Dispatcher T) (w : Worker T) → d.worker ≡ w → IsCounted d → IsCounted (worker_escape w d)
  unfolding worker_escape
  worker_escape-IsCounted d w e c = ground arith

  worker_finish-IsCounted :
      (d : Dispatcher T) (w : Worker T) → d.worker ≡ w → IsCounted d → IsCounted (worker_finish w d)
  unfolding worker_finish
  worker_finish-IsCounted d w e c = ground arith

  discard_entry-IsCounted :
      (d : Dispatcher T) (q : List (Entry T))
      → d.queue ≡ q
      → IsCounted d
      → IsCounted (discard_entry d q).0
  unfolding discard_entry
  discard_entry-IsCounted d [] e c = c
  discard_entry-IsCounted d (sentinel ∷ q) e c =
      ground (arith, length-records-sentinel q, length-append q (sentinel ∷ []))
  discard_entry-IsCounted d (entry x ∷ q) e c = ground arith

  count_discarded-IsCounted : (d : Dispatcher T) → IsCounted d → IsCounted (count_discarded d)
  unfolding count_discarded
  count_discarded-IsCounted d c = ground arith

  put_sentinel-IsCounted : (d : Dispatcher T) → IsCounted d → IsCounted (put_sentinel d).0
  unfolding put_sentinel
  put_sentinel-IsCounted d c = ground (
    arith,
    discard_entry-IsCounted d d.queue refl c,
    length-records-sentinel d.queue,
    length-append d.queue (sentinel ∷ []),
  )

  step-IsCounted : (d : Dispatcher T) (e : Event T) → IsCounted d → IsCounted (step d e)
  unfolding begin_close mark_sentinel end_close
  step-IsCounted d (submits race r) c = submit-IsCounted race d r c
  step-IsCounted d gets c = worker_get-IsCounted d d.worker refl c
  step-IsCounted d (handles success) c = worker_handle-IsCounted d d.worker success refl c
  step-IsCounted d escapes c = worker_escape-IsCounted d d.worker refl c
  step-IsCounted d finishes c = worker_finish-IsCounted d d.worker refl c
  step-IsCounted d begins_close c = ground arith
  step-IsCounted d discards c = discard_entry-IsCounted d d.queue refl c
  step-IsCounted d counts c = count_discarded-IsCounted d c
  step-IsCounted d marks c = ground arith
  step-IsCounted d puts_sentinel c = put_sentinel-IsCounted d c
  step-IsCounted d (ends_close alive) c = ground arith

  -- Whatever the threads do, the queue keeps its bound, `pending` counts the records in the queue
  -- and in the threads' hands, and its peak is at least that, if these hold at first.
  pub run-IsCounted :
      (events : List (Event T)) (d : Dispatcher T) → IsCounted d → IsCounted (run d events)
  unfolding run
  run-IsCounted [] d c = c
  run-IsCounted (e ∷ events) d c = run-IsCounted events (step d e) (step-IsCounted d e c)
