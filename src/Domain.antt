-- ===== src/Domain.antt =====
-- The pure rules of the package's `domain` folder.
pub mod Backoff
pub mod RetryAfter
pub mod IdempotencyKey
