-- ===== src/RateLimit.antt =====
-- internal/ratelimit/token_bucket.go.
pub mod Bucket
pub mod Bounds
pub mod Acquire
pub mod AcquireBounds
pub mod AcquireKeeps
