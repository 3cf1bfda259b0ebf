-- ===== src/Email.antt =====
-- internal/worker/email: transactional and campaign e-mail.
pub mod Renderer
pub mod Validate
pub mod Handler
pub mod Chunk
pub mod CampaignScheduler
pub mod Batcher
