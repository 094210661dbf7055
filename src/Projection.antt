-- ===== src/Projection.antt =====
-- apps/horizon/src/repository: what one event of the contracts leaves in the tables, the same in
-- ingest.repository.ts and in backfill.repository.ts.
pub mod Values
mod Hex
mod Rows
pub mod Decoding
mod Processing
mod Storing
mod Accounting
mod Examples
