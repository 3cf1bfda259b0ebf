-- ===== src/Workflows.antt =====
-- The workflow worker, internal/worker/workflows.
pub mod Executor
pub mod Handler
pub mod Scheduler
