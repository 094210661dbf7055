-- ===== src/Backfill.antt =====
-- apps/horizon/src/repository/backfill.repository.ts: `performBackfill`, its loop over the pages of
-- the RPC node, and what it does to the checkpoint.
pub mod Loop
mod Call
pub mod Rounds
mod Skipping
mod Outcome
mod Examples
