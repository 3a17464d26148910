-- ===== src/Concurrency.antt =====
-- src/coalestra/concurrency: limits on the calls that run at once.
pub mod Capacity
pub mod Dispatch
