-- ===== src/Operations.antt =====
-- apps/horizon/src/repository: the operations of a transaction, the contracts that they belong to,
-- and their rows (backfill.repository.ts, operations.repository.ts).
pub mod Types
pub mod Contract
mod Attribution
mod Sharing
pub mod Rows
pub mod Replay
mod Fetching
mod Examples
