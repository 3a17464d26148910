-- ===== src/Tests/Buffer.antt =====
-- The buffer: room for two records, and a third that drops the oldest.
use coalestra.Prelude.{ℕ, ◌≡◌, refl, true, false, List, [], ◌∷◌, ◌++◌, ◌+◌, arith}
use coalestra.Observability.Buffer.{
  drop_oldest, entry, sentinel, idle, stopped, Dispatcher, submit, worker_get, worker_handle,
  worker_escape, worker_finish, discard_entry, count_discarded, put_sentinel, begin_close,
  mark_sentinel,
}
use coalestra.Observability.Buffer.Run.{
  Event, submits, gets, finishes, handles, escapes, begins_close, discards, counts, marks,
  puts_sentinel, run, records,
}
use coalestra.Observability.Buffer.Count.{IsCounted, run-IsCounted}
use coalestra.Observability.Buffer.Conserve.{
  settled, unsettled, total_answered, total_lost, run-Conserves,
}
use coalestra.Observability.Buffer.Follows.{Subsequence}
use coalestra.Observability.Buffer.Order.{all_handed, all_offered, handed_in_order}
use coalestra.Observability.Buffer.Shutdown.{IsServed, worker_stops}

program : Unit {0}
unfolding run submit worker_get worker_handle worker_escape worker_finish discard_entry
    count_discarded put_sentinel begin_close mark_sentinel total_answered all_handed all_offered
program = tt

abbrev fresh : Dispatcher ℕ
fresh = record {
  overflow = drop_oldest;
  max_pending = 2;
  queue = [];
  enqueued = 0;
  delivered = 0;
  dropped = 0;
  failures = 0;
  pending = 0;
  peak_pending = 0;
  closed = false;
  sentinel_enqueued = false;
  shutdown_timeout_count = 0;
  worker = idle;
  in_hand = 0;
}

abbrev events : List (Event ℕ)
events =
    submits false 1
    ∷ submits false 2
    ∷ submits true 3
    ∷ submits false 4
    ∷ handles true
    ∷ finishes
    ∷ gets
    ∷ begins_close
    ∷ submits false 5
    ∷ discards
    ∷ counts
    ∷ marks
    ∷ puts_sentinel
    ∷ []

fresh-IsCounted : IsCounted fresh
fresh-IsCounted = record { bounded = omega arith; pending_is = omega arith; peak = omega arith }

run-IsCounted_example : IsCounted (run fresh events)
run-IsCounted_example = run-IsCounted events fresh fresh-IsCounted

run-Conserves_example :
    settled (run fresh events) + unsettled (run fresh events) + total_lost fresh events
    ≡ settled fresh + unsettled fresh + total_answered fresh events
run-Conserves_example = run-Conserves events fresh

handed_in_order_example :
    Subsequence (all_handed fresh events ++ records (run fresh events).queue) (all_offered events)
handed_in_order_example = handed_in_order events fresh refl

-- 2 makes room for 3, 4 is discarded, and 5 comes after the close
handed_records : all_handed fresh events ≡ 1 ∷ 3 ∷ []
unfolding program
handed_records = refl

worker_stops_example :
    IsServed (record fresh { queue = entry 7 ∷ sentinel ∷ [] }) (7 ∷ []) (false ∷ [])
worker_stops_example =
    worker_stops (false ∷ []) (7 ∷ []) [] (record fresh { queue = entry 7 ∷ sentinel ∷ [] }) refl
      (refl, refl)

-- a handler that raises what is no Exception ends the worker, and its record is counted nowhere
abbrev interrupted : List (Event ℕ)
interrupted = submits false 1 ∷ gets ∷ escapes ∷ finishes ∷ []

interrupted_worker : (run fresh interrupted).worker ≡ stopped
unfolding program
interrupted_worker = refl
