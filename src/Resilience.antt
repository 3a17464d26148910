-- ===== src/Resilience.antt =====
-- src/coalestra/resilience: circuit breaking and retries.
pub mod Policy
pub mod Breaker
pub mod Retry
