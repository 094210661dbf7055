-- ===== src/Schema.antt =====
-- packages/stellar-sdk/src/common/schemaEncoder.ts: schema definitions, their validation, and the XDR
-- form in which they are stored.
pub mod Types
pub mod Xdr
pub mod Decode
pub mod Encoder
pub mod Validity
pub mod Totality
pub mod Stored
pub mod Reading
pub mod RoundTrip
pub mod Examples
