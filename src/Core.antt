-- ===== src/Core.antt =====
-- src/coalestra/core: errors, resource keys, the data model, and the policies on snapshots.
pub mod Errors
pub mod Keys
pub mod Numbers
pub mod Models
pub mod Freshness
pub mod Authority
pub mod Quality
pub mod Texts
pub mod KeyBuild
