-- ===== src/DataCodec.antt =====
-- packages/stellar-sdk/src/utils/dataCodec.ts: definitions of schemas as text.
mod Schemas
mod RoundTrip
mod Examples
