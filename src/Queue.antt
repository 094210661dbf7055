-- ===== src/Queue.antt =====
-- apps/horizon/src/common/queue.ts: the in-memory job queue of the Horizon indexer.
pub mod Types
pub mod Operations
pub mod Backoff
pub mod Tick
pub mod Picking
pub mod System
pub mod Settling
pub mod Invariant
pub mod Identity
pub mod Retries
pub mod Names
pub mod Progress
pub mod Overflow
pub mod Examples
