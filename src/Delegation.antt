-- ===== src/Delegation.antt =====
-- packages/stellar-sdk/src/delegation.ts: the messages that are signed to attest and to revoke on
-- behalf of somebody else.
pub mod Bytes
pub mod Messages
pub mod Binding
pub mod Examples
