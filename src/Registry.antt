-- ===== src/Registry.antt =====
-- apps/horizon/src/repository/attestations.repository.ts: the table of attestations.
pub mod Store
pub mod Attestations
pub mod History
pub mod Schemas
pub mod Transactions
pub mod SchemaHistory
pub mod Examples
