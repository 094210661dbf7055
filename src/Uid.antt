-- ===== src/Uid.antt =====
-- packages/stellar-sdk/src/utils/uidGenerator.ts: the uids of attestations and schemas.
pub mod Generator
pub mod Format
pub mod Inputs
pub mod Examples
