-- ===== src/Orchestration.antt =====
-- src/coalestra/orchestration: work that callers share.
pub mod SingleFlight
pub mod SourceCatalog
