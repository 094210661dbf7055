-- ===== src/Errors.antt =====
-- packages/stellar-sdk/src/common/errors.ts: the errors of the Stellar SDK, and retrying.
pub mod Types
pub mod Factory
pub mod Codes
pub mod Retry
pub mod Attempts
pub mod Examples
