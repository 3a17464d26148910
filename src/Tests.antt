-- ===== src/Tests.antt =====
-- Runs of the modelled code at concrete inputs, and the theorems at inputs that meet their
-- hypotheses.
mod Cache
mod Breaker
mod SingleFlight
mod Publisher
mod Dispatch
mod SourceCatalog
mod KeyBuild
mod Capacity
mod Buffer
mod Retry
mod Consistency
mod Acceptance
