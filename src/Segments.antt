-- ===== src/Segments.antt =====
-- The segment refresh worker, internal/worker/segments.
pub mod Evaluator
pub mod Handler
