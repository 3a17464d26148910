-- ===== src/Lib.antt =====
-- Coalestra (src/coalestra) builds snapshots of named resources from prioritized read-only sources.
-- A caller asks for resource keys with freshness, acceptance and consistency policies; orchestration
-- looks them up in the cache, calls sources for the rest under retries, circuit breakers and limits,
-- writes what it acquired back to the cache, and judges the result. This library models the parts
-- that decide: keys, the cache and its publisher, the two judgements on a snapshot, retries, circuit
-- breakers and capacity limits, the coalescing of calls, and the buffer of the event sinks.
--
-- Prelude, Dict: shared numbers, lists and tests; Python's dict as the list of its items in
--   insertion order, so that the order of an OrderedDict is the order of the list.
-- Core: src/coalestra/core. Errors has the exceptions as values (`Result`), without their texts.
--   Keys has ResourceKey by its compared fields, and KeyBuild how keys are built, with the order of
--   texts of Texts. Authority has authority.py, Quality quality.py. Numbers has the floats that
--   configuration takes. Models has FreshnessPolicy with its `__post_init__`, SnapshotValue,
--   CacheLookup and CacheWriteResult.
-- Cache: src/coalestra/cache/memory.py. State has the fields of AsyncMemoryCache and the copies of
--   core/isolation.py; Dependencies has `_dependencies_current_locked`; Reads has `get` and
--   `get_many`; Writes and Commit have `set_many_if_newer` with `_select_candidates`,
--   `_write_status` and `_enforce_limit_locked`; Removal has the invalidations, `prune`, `clear`,
--   `size` and `stats`. Update and Publisher have ResourcePublisher of cache/publisher.py over this
--   cache: `publish_many` reads with `get_many` and writes with `set_many_if_newer`. The children of
--   these modules are about them.
-- Acceptance: src/coalestra/core/acceptance.py. Evaluate has `find_snapshot_acceptance_violations`;
--   Spec says without its loops what a policy asks.
-- Consistency: src/coalestra/core/consistency.py, `find_observation_skew_violation`.
-- Resilience: src/coalestra/resilience. Policy has CircuitBreakerPolicy of policy.py, Breaker has the
--   state and the transitions of circuit_breaker.py, Breaker/Operations its methods; Retry has the
--   loop of retry.py.
-- Concurrency: src/coalestra/concurrency. Capacity has CapacityLimiter, CapacityLease and
--   CapacityController of capacity.py; Dispatch has the workers of `run_bounded` of dispatch.py.
-- Orchestration: src/coalestra/orchestration/singleflight.py. SingleFlight has `run_many`, `_produce`
--   and `_complete`; its Run has the steps of callers and producers. SourceCatalog has `supports` of
--   source_catalog.py with its memo.
-- Observability: src/coalestra/observability/buffered.py. Buffer has the dispatcher's methods and its
--   worker; its Run has the steps that threads interleave.
-- Tests: runs at concrete inputs, and each theorem at an input that meets its hypotheses.
--
-- Conventions. Times are whole ticks of a fixed length: a timestamp is an integer, an age or a
-- timeout a natural number, and a limit may be unlimited, which stands for an infinite float. A
-- difference that the source bounds below by 0.0 is written `monus`. A payload or a metadata mapping
-- is of the type parameter `A`. A section that the source runs under a lock is one step. Tasks and
-- threads are lists of such steps in any order; a future is a number, and a semaphore is the number
-- of its free slots. Where `set_many_if_newer` lets go of the lock, what other tasks do is the
-- argument `others`, and between the read and the write of a publication it is `meanwhile`. The
-- copies that a cache makes and those of its publisher have copiers of their own. Callables of the
-- user (copiers, the freshness of a key, operations to retry, what a source supports) and functions
-- of Python on texts (`str.strip`, `urlencode`) are parameters. Arguments have the types that the
-- source's signatures say, so its tests for other types do not occur.
--
-- Fuel. The dependency test is given one more call than the cache has entries. The loop of
-- `set_many_if_newer` is given one more round than there are selected candidates.
--
-- Not modelled: the rest of core and orchestration, adapters, the other sinks of
-- observability, sync.py and operational.py, which schedule, report or connect; caches of other kinds
-- under the publisher; the worker threads that copy payloads and their shutdown; texts of errors;
-- rounding of floats.
pub mod Prelude
pub mod Dict
pub mod Core
pub mod Cache
pub mod Resilience
pub mod Acceptance
pub mod Consistency
pub mod Observability
pub mod Concurrency
pub mod Orchestration
mod Tests
