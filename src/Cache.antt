-- ===== src/Cache.antt =====
-- src/coalestra/cache: the in-memory cache of cache/memory.py.
pub mod State
pub mod Dependencies
pub mod Reads
pub mod Writes
pub mod Commit
pub mod Invariant
pub mod Served
pub mod WriteLaws
pub mod Removal
pub mod Monotone
pub mod Update
pub mod Publisher
