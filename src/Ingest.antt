-- ===== src/Ingest.antt =====
-- apps/horizon/src/repository: the ingestion of contract events from the RPC node.
pub mod Types
pub mod Cycle
pub mod Call
pub mod Rounds
pub mod Checkpoint
pub mod Restart
pub mod Events
pub mod Ordering
pub mod Recurring
pub mod Tallies
pub mod Examples
