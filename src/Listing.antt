-- ===== src/Listing.antt =====
-- The lists of attestations and schemas: apps/horizon/src/repository, the list routes of
-- apps/horizon/src/router/registry.router.ts, and packages/stellar-sdk/src/utils/indexer.ts, which calls
-- them.
pub mod Params
pub mod Queries
pub mod Routes
pub mod Client
mod Order
pub mod Paging
pub mod Outage
pub mod Dump
pub mod Examples
