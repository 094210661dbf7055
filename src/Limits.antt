-- ===== src/Limits.antt =====
-- apps/horizon/src/common/errors.ts: `RateLimiter`.
pub mod Limiter
pub mod Window
pub mod Examples
