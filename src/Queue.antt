-- ===== src/Queue.antt =====
-- internal/queue: publishing to and consuming from JetStream.
pub mod Publisher
