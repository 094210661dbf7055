-- ===== src/Lib.antt =====
-- Verification of the TypeScript code of attest.so: the core package (packages/core), the
-- Stellar SDK (packages/stellar-sdk) and the Horizon indexer (apps/horizon).
--
-- The program. Schemas and attestations live in smart contracts. The SDK makes the requests that are
-- signed and sent, encodes schema definitions, and wraps and retries failing calls. The indexer
-- follows the contracts: an in-memory queue runs jobs, a job fetches the events of the contracts from an
-- RPC node and stores them, and the ledger up to which this has been done is kept in a database as the
-- checkpoint.
--
-- Queue (apps/horizon/src/common/queue.ts)
--   Queue/Types       IngestJob, the fields of IngestQueue, the emitted events
--   Queue/Operations  constructor, start, stop, enqueue*, getStatus
--   Queue/Backoff     computeBackoffMs with its overflow; Math.random() is a multiple of 2^-53
--   Queue/Tick        tick, cut at its await: tick_begin and tick_end
--   Queue/System      the queue with the runtime's live intervals and the jobs in flight; a step is one
--                     uninterrupted run of the event loop, Reach is any sequence of steps
--   Queue/Picking, Settling, Invariant, Identity, Names, Retries, Progress, Overflow,
--                     Backoff/Bounds  theorems
-- Ingest (apps/horizon/src/repository/events.repository.ts and ingest.repository.ts, common/db.ts)
--   Ingest/Cycle, Call    fetchAndStoreEvents: the loop over the pages, and what stands around it
--   Ingest/Events, Recurring   parseEventData and performRecurringIngestion
--   Ingest/Rounds, Checkpoint, Restart, Ordering, Tallies  theorems
-- Batches (storeEventsAndTransactionsInDB in apps/horizon/src/repository/events.repository.ts)
--   Batches/Types, Rows, Texts, Events   items, rows, and the database transaction
--   Batches/Projections, Registry        what the projections read, and what they write
--   Batches/Transactions                 storeTransactionsInDB, in transactions.repository.ts
--   Batches/References, Runs             theorems
-- Projection (upsertEventIndividually and processTransactionForEvent in apps/horizon/src/repository/
--   ingest.repository.ts and backfill.repository.ts): what the processing of an event writes
--   Projection/Values, Rows, Decoding   native values, the rows, what is read from an event's value
--   Projection/Processing               the processing of one event over six tables
--   Projection/Hex, Storing, Accounting theorems
-- Backfill (performBackfill in apps/horizon/src/repository/backfill.repository.ts)
--   Backfill/Loop, Call          the loop, over any processing of events, and the call around it
--   Backfill/Rounds, Outcome, Skipping   theorems
-- Operations (apps/horizon/src/repository/backfill.repository.ts and operations.repository.ts)
--   Operations/Types, Contract   operations, determineContractId, the parts of contracts
--   Operations/Rows, Fetching    processOperationsForEvent, storeOperationsInDB, fetchContractOperations
--   Operations/Attribution, Sharing, Replay   theorems
-- Indexer   the queue together with the ingestion that its jobs call
-- Errors (packages/stellar-sdk/src/common/errors.ts)
--   Errors/Types, Factory, Retry   the error classes, ErrorFactory, withRetry
--   Errors/Codes, Attempts         theorems
-- Delegation (packages/stellar-sdk/src/delegation.ts)
--   Delegation/Bytes, Messages     writeBigUInt64BE, the messages, the requests
--   Delegation/Binding             theorems
-- Schema (packages/stellar-sdk/src/common/schemaEncoder.ts)
--   Schema/Types, Xdr, Decode, Encoder   validateSchema, toXDR, fromXDR, the constructor
--   Schema/Stored                        a schema as it is read back
--   Schema/Validity, Totality, Reading, RoundTrip  theorems
-- DataCodec (packages/stellar-sdk/src/utils/dataCodec.ts)
--   DataCodec/Schemas     encodeSchema, decodeSchema and the two others
--   DataCodec/RoundTrip   theorems
-- Uid (packages/stellar-sdk/src/utils/uidGenerator.ts)
--   Uid/Generator, Format   what is hashed for a uid, and the display format with its theorem
--   Uid/Inputs              theorem
-- Limits (apps/horizon/src/common/errors.ts)
--   Limits/Limiter, Window         RateLimiter, and theorems
-- Core (packages/core/src/base.ts and types.ts)
--   Core/Types, Validation   the checks of parameters and definitions, pages
--   Core/Checks              theorems
-- Registry (apps/horizon/src/repository/attestations.repository.ts, schemas.repository.ts and
--   contract-transactions.repository.ts, and the events of attestations in ingest.repository.ts)
--   Registry/Store          rows of attestations
--   Registry/Attestations, Schemas, Transactions   the upserts
--   Registry/History, SchemaHistory                theorems
-- Listing (apps/horizon/src/router/registry.router.ts with the queries of the repositories, and
--   packages/stellar-sdk/src/utils/indexer.ts)
--   Listing/Params, Queries, Routes   parseInt and the parameters, the queries, the answers
--   Listing/Client                    the client of the SDK
--   Listing/Order, Paging, Outage, Dump  theorems
-- Storage   a table of the database as an interface with laws, and as a list of rows
--   Storage/Rows, Puts, Upserts   the list, and series of writes
-- Prelude   shared notation and lemmas. The Examples modules hold runs at concrete inputs.
--
-- How the code is modelled. Numbers of the program that are counters, ledgers, times or sizes are
-- natural numbers; where the source subtracts, the model's subtraction stops at 0 only where the
-- source's operands are ordered or clamped. State is passed explicitly: an operation returns the
-- new state, its result and the events that it emits. An exception is a value (Outcome, CycleEnd,
-- Attempt) or `none`. What the code does not contain is a parameter: the RPC node, the clock, the
-- random numbers, the XDR library and Ajv, hashes and curves, the contract client, HTTP, and what
-- the database accepts. The loops of ingest.repository.ts and backfill.repository.ts are written
-- over any processing of events, and Projection gives the one of the code.
--
-- Bounds. The loop of fetchAndStoreEvents is run on fuel for 1001 rounds; the source throws after
-- round 1001 at the latest. withRetry is recursion on the attempts that are left. A backfill is
-- recursion on the rounds that are left of the 50 that the source allows. The batches of
-- storeOperationsInDB and storeTransactionsInDB are run on fuel for as many batches as there are
-- operations or transactions, and each batch takes at least one. All other loops are recursion on
-- lists.
--
-- Assumptions. Listeners of the queue's emitter do not throw. The names of jobs are new when they
-- are made. A key of a partial retry configuration that is given has a value, and the pause of a
-- retry is a whole number of milliseconds. Limits in schema fields are whole numbers or NaN. The
-- arithmetic of retry delays is exact below the overflow of doubles. An upsert changes the row with
-- its key and no other. The rows that a query meets stand in an order that the query asks for; rows
-- with one time, or with none, may stand in another order in the next query. Texts are in upper or
-- lower case by their letters a to z. The first operation of a transaction and its decoded
-- parameters are given for each state of the table. Numbers in the values of events are natural,
-- times before 1970 count as 0, and texts that a value should have and has not count as absent.
--
-- Not modelled: the contracts themselves and the TypeScript bindings generated from them; the
-- repositories of accounts and payments; the routes for analytics, data, ingestion and the system;
-- the statistics of contract transactions; of the schema encoder the JSON schemas and the encoding
-- of data; the client, schema and authority modules of the Stellar SDK, the BLS keys, the Solana
-- and Starknet SDKs and the command line interface, which pass calls on; the scripts that import
-- schemas; logging.
pub mod Prelude
pub mod Storage
pub mod Errors
pub mod Ingest
pub mod Queue
pub mod Indexer
pub mod DataCodec
pub mod Delegation
pub mod Limits
pub mod Schema
pub mod Core
pub mod Registry
pub mod Uid
pub mod Backfill
pub mod Batches
pub mod Operations
pub mod Listing
pub mod Projection
