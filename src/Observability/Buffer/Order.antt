-- ===== src/Observability/Buffer/Order.antt =====
-- observability/buffered.py: the order in which the handler is given the records.
use mathlib.Core.List.{append_assoc}
use coalestra.Prelude.{◌≡◌, refl, Bool, true, false, List, [], ◌∷◌, ◌++◌, arith, if◌then◌else◌}
use coalestra.Core.Errors.{raise, runtime_error}
use coalestra.Observability.Buffer.{
  Entry, entry, sentinel, Worker, idle, stopped, finishing, escaping, handling, Dispatcher,
  take_entry, worker_get, worker_handle, worker_escape, worker_finish, is_full, put_record,
  replace_oldest, overflowed, submit, begin_close, discard_entry, count_discarded, mark_sentinel,
  put_sentinel, end_close, BufferOverflowPolicy, drop_oldest, drop_newest, raise_full,
}
use coalestra.Observability.Buffer.Run.{
  Event, submits, gets, escapes, finishes, begins_close, discards, counts, marks, puts_sentinel,
  handles, ends_close, step, run, records,
}
use coalestra.Observability.Buffer.Follows.{
  Subsequence, nil, records-sentinel, Follows, Follows-same, Follows-put, Follows-hand,
  Follows-lose, Follows-refuse, Follows-trans,
}

module _ {T : Type 0} where
  -- the record that the handler is given where the worker goes from the one place to the other
  abbrev pub handed_between : Worker T → Worker T → List T
  handed_between idle (handling r) = r ∷ []
  handed_between _ _ = []

  abbrev pub handed : Dispatcher T → Event T → List T
  handed d e = handed_between d.worker (step d e).worker

  abbrev pub offered : Event T → List T
  offered (submits race r) = r ∷ []
  offered _ = []

  abbrev FollowsTo : Dispatcher T → List T → Dispatcher T → Type 0
  FollowsTo d os d' = Follows d.queue (handed_between d.worker d'.worker) os d'.queue

  take_entry-FollowsTo :
      (d : Dispatcher T) (q : List (Entry T))
      → d.queue ≡ q
      → d.worker ≡ idle
      → FollowsTo d [] (take_entry d q)
  unfolding take_entry
  take_entry-FollowsTo d [] e w = rw w (Follows-same d.queue d.queue refl)
  take_entry-FollowsTo d (sentinel ∷ q) e w = rw (w, e) (Follows-same (sentinel ∷ q) q refl)
  take_entry-FollowsTo d (entry r ∷ q) e w = rw (w, e) (Follows-hand r q)

  worker_get-FollowsTo :
      (d : Dispatcher T) (w : Worker T) → d.worker ≡ w → FollowsTo d [] (worker_get w d)
  unfolding worker_get
  worker_get-FollowsTo d idle e = take_entry-FollowsTo d d.queue refl e
  worker_get-FollowsTo d stopped e = rw e (Follows-same d.queue d.queue refl)
  worker_get-FollowsTo d finishing e = rw e (Follows-same d.queue d.queue refl)
  worker_get-FollowsTo d escaping e = rw e (Follows-same d.queue d.queue refl)
  worker_get-FollowsTo d (handling r) e = rw e (Follows-same d.queue d.queue refl)

  -- where the worker stays where it is
  handed_self : (w : Worker T) → handed_between w w ≡ []
  handed_self idle = refl
  handed_self stopped = refl
  handed_self finishing = refl
  handed_self escaping = refl
  handed_self (handling r) = refl

  replace_oldest-Follows :
      (d : Dispatcher T) (r : T) (q : List (Entry T))
      → d.queue ≡ q
      → Follows d.queue [] (r ∷ []) (replace_oldest d r q).0.queue
  unfolding replace_oldest put_record
  replace_oldest-Follows d r [] e = Follows-refuse d.queue d.queue r refl
  replace_oldest-Follows d r (sentinel ∷ q) e =
      rw e (Follows-refuse (sentinel ∷ q) (q ++ sentinel ∷ []) r (records-sentinel q))
  replace_oldest-Follows d r (entry x ∷ q) e = rw e (
      Follows-trans (entry x ∷ q) q (q ++ entry r ∷ []) [] (r ∷ []) (Follows-lose x q)
        (Follows-put q r))

  replace_oldest-worker :
      (d : Dispatcher T) (r : T) (q : List (Entry T)) → (replace_oldest d r q).0.worker ≡ d.worker
  unfolding replace_oldest put_record
  replace_oldest-worker d r [] = refl
  replace_oldest-worker d r (sentinel ∷ q) = refl
  replace_oldest-worker d r (entry x ∷ q) = refl

  replace_oldest-FollowsTo :
      (d : Dispatcher T) (r : T) → FollowsTo d (r ∷ []) (replace_oldest d r d.queue).0
  replace_oldest-FollowsTo d r =
      rw (replace_oldest-worker d r d.queue, handed_self d.worker)
        (replace_oldest-Follows d r d.queue refl)

  overflowed-FollowsTo :
      (p : BufferOverflowPolicy) (race : Bool) (d : Dispatcher T) (r : T)
      → FollowsTo d (r ∷ []) (overflowed p race d r).0
  unfolding overflowed
  overflowed-FollowsTo drop_newest race d r =
      rw (handed_self d.worker) (Follows-refuse d.queue d.queue r refl)
  overflowed-FollowsTo raise_full race d r =
      rw (handed_self d.worker) (Follows-refuse d.queue d.queue r refl)
  overflowed-FollowsTo drop_oldest false d r = replace_oldest-FollowsTo d r
  overflowed-FollowsTo drop_oldest true d r =
      let d' = worker_get d.worker d in
      rw (replace_oldest-worker d' r d'.queue) (
        Follows-trans d.queue d'.queue (replace_oldest d' r d'.queue).0.queue
          (handed_between d.worker d'.worker) (r ∷ []) (worker_get-FollowsTo d d.worker refl)
          (replace_oldest-Follows d' r d'.queue refl))

  if-FollowsTo :
      {S : Type 0} (d : Dispatcher T) (os : List T) (test : Bool) (p q : Dispatcher T × S)
      → FollowsTo d os p.0
      → FollowsTo d os q.0
      → FollowsTo d os (if test then p else q).0
  if-FollowsTo d os true p q f g = f
  if-FollowsTo d os false p q f g = g

  submit-FollowsTo :
      (race : Bool) (d : Dispatcher T) (r : T) → FollowsTo d (r ∷ []) (submit race d r).0
  unfolding submit put_record
  submit-FollowsTo race d r =
      let open_case = if is_full d then overflowed d.overflow race d r else put_record d r in
      if-FollowsTo d (r ∷ []) d.closed (d, raise runtime_error) open_case
        (rw (handed_self d.worker) (Follows-refuse d.queue d.queue r refl))
        (if-FollowsTo d (r ∷ []) (is_full d) (overflowed d.overflow race d r) (put_record d r)
          (overflowed-FollowsTo d.overflow race d r)
          (rw (handed_self d.worker) (Follows-put d.queue r)))

  discard_entry-FollowsTo :
      (d : Dispatcher T) (q : List (Entry T)) → d.queue ≡ q → FollowsTo d [] (discard_entry d q).0
  unfolding discard_entry
  discard_entry-FollowsTo d [] e = rw (handed_self d.worker) (Follows-same d.queue d.queue refl)
  discard_entry-FollowsTo d (sentinel ∷ q) e =
      rw (handed_self d.worker, e)
        (Follows-same (sentinel ∷ q) (q ++ sentinel ∷ []) (records-sentinel q))
  discard_entry-FollowsTo d (entry x ∷ q) e = rw (handed_self d.worker, e) (Follows-lose x q)

  put_sentinel-FollowsTo : (d : Dispatcher T) → FollowsTo d [] (put_sentinel d).0
  unfolding put_sentinel
  put_sentinel-FollowsTo d =
      if-FollowsTo d [] (is_full d) (discard_entry d d.queue)
        (record d { queue = d.queue ++ sentinel ∷ [] }, false)
        (discard_entry-FollowsTo d d.queue refl)
        (rw (handed_self d.worker)
          (Follows-same d.queue (d.queue ++ sentinel ∷ []) (records-sentinel d.queue)))

  -- a step that leaves the queue, after which the worker is not in the handler
  quiet-FollowsTo :
      (d d' : Dispatcher T)
      → d'.queue ≡ d.queue
      → handed_between d.worker d'.worker ≡ []
      → FollowsTo d [] d'
  quiet-FollowsTo d d' e h = rw (h, e) (Follows-same d.queue d.queue refl)

  step-FollowsTo : (d : Dispatcher T) (e : Event T) → FollowsTo d (offered e) (step d e)
  unfolding begin_close mark_sentinel end_close count_discarded worker_handle worker_escape
      worker_finish
  step-FollowsTo d (submits race r) = submit-FollowsTo race d r
  step-FollowsTo d gets = worker_get-FollowsTo d d.worker refl
  step-FollowsTo d (handles success) =
      quiet-FollowsTo d (step d (handles success)) (ground arith) (ground arith)
  step-FollowsTo d escapes = quiet-FollowsTo d (step d escapes) (ground arith) (ground arith)
  step-FollowsTo d finishes = quiet-FollowsTo d (step d finishes) (ground arith) (ground arith)
  step-FollowsTo d begins_close =
      quiet-FollowsTo d (step d begins_close) refl (handed_self d.worker)
  step-FollowsTo d discards = discard_entry-FollowsTo d d.queue refl
  step-FollowsTo d counts =
      quiet-FollowsTo d (step d counts) (ground arith) (ground (arith, handed_self d.worker))
  step-FollowsTo d marks =
      quiet-FollowsTo d (step d marks) (ground arith) (ground (arith, handed_self d.worker))
  step-FollowsTo d puts_sentinel = put_sentinel-FollowsTo d
  step-FollowsTo d (ends_close alive) =
      quiet-FollowsTo d (step d (ends_close alive)) (ground arith)
        (ground (arith, handed_self d.worker))

  -- what a run hands over, and what it is offered
  unfoldable pub all_handed : Dispatcher T → List (Event T) → List T
  all_handed d [] = []
  all_handed d (e ∷ events) = handed d e ++ all_handed (step d e) events

  unfoldable pub all_offered : List (Event T) → List T
  all_offered [] = []
  all_offered (e ∷ events) = offered e ++ all_offered events

  run-Follows :
      (events : List (Event T)) (d : Dispatcher T)
      → Follows d.queue (all_handed d events) (all_offered events) (run d events).queue
  unfolding run all_handed all_offered
  run-Follows [] d xs ys s = Follows-same d.queue d.queue refl xs ys s
  run-Follows (e ∷ events) d xs ys s =
      let first = step-FollowsTo d e xs ys s in
      let rest = run-Follows events (step d e) (xs ++ handed d e) (ys ++ offered e) first in
      rw
        (
          ← append_assoc xs (handed d e) (all_handed (step d e) events),
          ← append_assoc ys (offered e) (all_offered events),
        )
        rest

  -- Whatever the threads do, the handler is given records in the order in which they were submitted,
  -- each submission at most once, and what the queue still holds comes after them in that order.
  pub handed_in_order :
      (events : List (Event T)) (d : Dispatcher T)
      → d.queue ≡ []
      → Subsequence (all_handed d events ++ records (run d events).queue) (all_offered events)
  handed_in_order events d e = run-Follows events d [] [] (rw e nil)
