-- ===== src/Batches.antt =====
-- apps/horizon/src/repository: the writes of whole batches, in events.repository.ts and
-- transactions.repository.ts.
mod Types
mod Rows
mod Texts
mod Events
mod Projections
mod Registry
mod Transactions
mod Runs
mod References
mod Examples
