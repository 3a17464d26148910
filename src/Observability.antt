-- ===== src/Observability.antt =====
-- src/coalestra/observability: the buffer between the library and a slow sink.
pub mod Buffer
