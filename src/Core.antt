-- ===== src/Core.antt =====
-- packages/core/src: what the SDKs of all chains share.
pub mod Types
pub mod Validation
pub mod Checks
pub mod Examples
