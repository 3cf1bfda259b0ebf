-- ===== src/Events.antt =====
-- The events worker, internal/worker/events.
pub mod Enricher
pub mod Handler
