-- ===== src/Indexer.antt =====
-- apps/horizon: the job queue together with the ingestion that its jobs run.
pub mod Restart
pub mod Examples
