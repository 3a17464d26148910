-- ===== src/Observability/Buffer.antt =====
-- observability/buffered.py: `_BufferedDispatcher`. Threads share the dispatcher: those that submit,
-- its worker, and one that closes it. Each function below is what a thread does between two points
-- where another may come in; the clock is left to the arguments.
pub mod Run
pub mod Count
pub mod Conserve
pub mod Follows
pub mod Order
pub mod Shutdown
use coalestra.Prelude.{
  ℕ, ◌+◌, ◌-◌, Bool, true, false, Option, none, some, List, [], ◌∷◌, ◌++◌, ltb, leb, length, max,
  ◌==◌, if◌then◌else◌,
}
use coalestra.Core.Errors.{
  value_error, runtime_error, queue_full_error, Result, ok, raise, reject_if, ◌>>◌,
}

pub data BufferOverflowPolicy : Type 0 where
  drop_oldest drop_newest raise_full : BufferOverflowPolicy

-- an entry of the queue: a record, or `_SENTINEL`
pub data Entry (T : Type 0) : Type 0 where
  entry : T → Entry T
  sentinel : Entry T

-- Where the worker is in `_run`: at `get`, in the handler, past its count, past it with an error that
-- is no Exception and ends the thread, or returned.
pub data Worker (T : Type 0) : Type 0 where
  idle stopped : Worker T
  finishing escaping : Worker T
  handling : T → Worker T

-- `in_hand` counts the records that the closing thread took from the queue and did not count yet.
pub record Dispatcher (T : Type 0) : Type 0 where
  pub overflow : BufferOverflowPolicy
  pub max_pending : ℕ
  pub queue : List (Entry T)
  pub enqueued : ℕ
  pub delivered : ℕ
  pub dropped : ℕ
  pub failures : ℕ
  pub pending : ℕ
  pub peak_pending : ℕ
  pub closed : Bool
  pub sentinel_enqueued : Bool
  pub shutdown_timeout_count : ℕ
  pub worker : Worker T
  pub in_hand : ℕ

unfoldable pub init : {T : Type 0} → ℕ → BufferOverflowPolicy → Result (Dispatcher T)
init max_pending overflow = do
  reject_if (ltb max_pending 1) value_error
  ok (record {
    overflow = overflow;
    max_pending = max_pending;
    queue = [];
    enqueued = 0;
    delivered = 0;
    dropped = 0;
    failures = 0;
    pending = 0;
    peak_pending = 0;
    closed = false;
    sentinel_enqueued = false;
    shutdown_timeout_count = 0;
    worker = idle;
    in_hand = 0;
  })

module _ {T : Type 0} where
  -- the worker's `get` of the first entry
  unfoldable pub take_entry : Dispatcher T → List (Entry T) → Dispatcher T
  take_entry d [] = d
  take_entry d (sentinel ∷ rest) = record d { queue = rest; worker = stopped }
  take_entry d (entry r ∷ rest) = record d { queue = rest; worker = handling r }

  unfoldable pub worker_get : Worker T → Dispatcher T → Dispatcher T
  unfolding take_entry
  worker_get idle d = take_entry d d.queue
  worker_get _ d = d

  -- the handler returns, or raises an Exception
  unfoldable pub worker_handle : Worker T → Bool → Dispatcher T → Dispatcher T
  worker_handle (handling r) true d = record d { delivered = d.delivered + 1; worker = finishing }
  worker_handle (handling r) false d = record d { failures = d.failures + 1; worker = finishing }
  worker_handle _ success d = d

  -- the handler raises what is no Exception: the record is counted nowhere
  unfoldable pub worker_escape : Worker T → Dispatcher T → Dispatcher T
  worker_escape (handling r) d = record d { worker = escaping }
  worker_escape _ d = d

  unfoldable pub worker_finish : Worker T → Dispatcher T → Dispatcher T
  worker_finish finishing d = record d { pending = d.pending - 1; worker = idle }
  worker_finish escaping d = record d { pending = d.pending - 1; worker = stopped }
  worker_finish _ d = d

  abbrev pub is_full : Dispatcher T → Bool
  is_full d = leb d.max_pending (length d.queue)

  -- the last statements of `submit`, with the `put_nowait` before them
  unfoldable pub put_record : Dispatcher T → T → Dispatcher T × Result Bool
  put_record d r = (
    record d {
      queue = d.queue ++ entry r ∷ [];
      enqueued = d.enqueued + 1;
      pending = d.pending + 1;
      peak_pending = max d.peak_pending (d.pending + 1);
    },
    ok true,
  )

  abbrev pub drop_one : Dispatcher T → Dispatcher T
  drop_one d = record d { dropped = d.dropped + 1 }

  -- DROP_OLDEST: the first entry is taken to make room
  unfoldable pub replace_oldest : Dispatcher T → T → List (Entry T) → Dispatcher T × Result Bool
  unfolding put_record
  replace_oldest d r [] = (drop_one d, ok false)
  replace_oldest d r (sentinel ∷ rest) =
      (drop_one (record d { queue = rest ++ sentinel ∷ [] }), ok false)
  replace_oldest d r (entry oldest ∷ rest) =
      put_record (record d { queue = rest; dropped = d.dropped + 1; pending = d.pending - 1 }) r

  -- the handler of `queue.Full`; `race` says that the worker takes an entry before it goes on
  unfoldable pub overflowed :
      BufferOverflowPolicy → Bool → Dispatcher T → T → Dispatcher T × Result Bool
  unfolding replace_oldest
  overflowed drop_newest race d r = (drop_one d, ok false)
  overflowed raise_full race d r = (d, raise queue_full_error)
  overflowed drop_oldest race d r =
      let d' = if race then worker_get d.worker d else d in replace_oldest d' r d'.queue

  unfoldable pub submit : Bool → Dispatcher T → T → Dispatcher T × Result Bool
  unfolding overflowed put_record
  submit race d r =
      if d.closed
      then (d, raise runtime_error)
      else if is_full d
      then overflowed d.overflow race d r
      else put_record d r

  -- one look of `flush` at the condition: its answer, or none where it waits on
  unfoldable pub flush_look : Dispatcher T → Bool → Option Bool
  flush_look d expired = if ltb 0 d.pending then if expired then some false else none else some true

  -- `close` under its first lock; the flag says that it is the first
  unfoldable pub begin_close : Dispatcher T → Dispatcher T × Bool
  begin_close d = (record d { closed = true }, if d.closed then false else true)

  -- one round of `_discard_pending` up to its count; the flag says that the loop goes on
  unfoldable pub discard_entry : Dispatcher T → List (Entry T) → Dispatcher T × Bool
  discard_entry d [] = (d, false)
  discard_entry d (sentinel ∷ rest) = (record d { queue = rest ++ sentinel ∷ [] }, false)
  discard_entry d (entry _ ∷ rest) = (record d { queue = rest; in_hand = d.in_hand + 1 }, true)

  -- the count of a record that was taken, in `_discard_pending` and `_enqueue_sentinel`
  unfoldable pub count_discarded : Dispatcher T → Dispatcher T
  count_discarded d =
      if ltb 0 d.in_hand
      then record d { dropped = d.dropped + 1; pending = d.pending - 1; in_hand = d.in_hand - 1 }
      else d

  -- `_enqueue_sentinel` under its first lock; the flag says that it goes on
  unfoldable pub mark_sentinel : Dispatcher T → Dispatcher T × Bool
  mark_sentinel d =
      if d.sentinel_enqueued then (d, false) else (record d { sentinel_enqueued = true }, true)

  -- one round of its loop; the flag says that the loop goes on
  unfoldable pub put_sentinel : Dispatcher T → Dispatcher T × Bool
  unfolding discard_entry
  put_sentinel d =
      if is_full d
      then discard_entry d d.queue
      else (record d { queue = d.queue ++ sentinel ∷ [] }, false)

  -- the end of `close`, after the join
  unfoldable pub end_close : Dispatcher T → Bool → Dispatcher T × Bool
  end_close d alive =
      if alive
      then (record d { shutdown_timeout_count = d.shutdown_timeout_count + 1 }, false)
      else (d, true)

pub record BufferedSinkStats : Type 0 where
  pub enqueued : ℕ
  pub delivered : ℕ
  pub dropped : ℕ
  pub failures : ℕ
  pub pending : ℕ
  pub closed : Bool
  pub max_pending : ℕ
  pub peak_pending : ℕ
  pub worker_alive : Bool
  pub shutdown_timeout_count : ℕ

abbrev pub is_alive : {T : Type 0} → Worker T → Bool
is_alive stopped = false
is_alive _ = true

unfoldable pub stats : {T : Type 0} → Dispatcher T → BufferedSinkStats
stats d = record {
  enqueued = d.enqueued;
  delivered = d.delivered;
  dropped = d.dropped;
  failures = d.failures;
  pending = d.pending;
  closed = d.closed;
  max_pending = d.max_pending;
  peak_pending = d.peak_pending;
  worker_alive = is_alive d.worker;
  shutdown_timeout_count = d.shutdown_timeout_count;
}
