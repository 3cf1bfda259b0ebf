-- ===== src/Ses.antt =====
-- internal/infra/ses.
pub mod Client
pub mod Verification
