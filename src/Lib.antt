-- ===== src/Lib.antt =====
-- The Materios blob gateway: a verification library for its own logic.
--
-- The gateway stores blobs that operators upload, under API keys, bearer tokens or sr25519 upload
-- signatures, enforces quotas on them, computes the chunk-Merkle root that goes on chain, meters
-- compute workers for billing, and shows operators how far their validator has come.
--
-- Parts, the files that model them, and the code they are about:
--   Sql.antt              the SQL statements that the code runs, over a table that is the list of
--                         its rows in the order of insertion; Sql/Laws, Sql/Order their laws
--   Quota.antt            src/quota.ts. Quota/Tables: the tables of quota.db. Quota/Uploads: slots,
--                         bytes and receipts a day (startUpload, recordChunkBytes,
--                         chargeManifestBytes, finalizeUpload and their account versions, which run
--                         the same statements over the other tables). Quota/Signatures:
--                         claimUploadSignatures. Quota/Registry: loadKeys, resolveKey,
--                         retireAddressDerivedApiKeys, ensureFaucetApiKey, the aura bindings and
--                         the lifetime usage
--   Tokens.antt           src/api-tokens.ts: issueToken, verifyToken, revokeToken, bindTokenToTenant,
--                         listTokens; Tokens/Base62 is toBase62
--   Merkle.antt           src/merkle.ts
--   Auth.antt             Auth/Account: src/ss58.ts. Auth/Upload: src/upload-auth.ts. Auth/Resolve:
--                         resolveAuth of src/auth.ts and adminGuard of src/bearer-auth.ts.
--                         Auth/Bearer: bearerAuth of src/bearer-auth.ts
--   Metering.antt         src/worker_bounds.ts: Metering/Workers the bounds and the state of a
--                         worker, Metering.antt itself the log of submissions, with laws in
--                         Metering/Pages, Strict and Complete. Metering/Aggregate: aggregateRecords
--                         of src/billing/aggregate.ts
--   Billing.antt          the 402 check. Billing/Throttle: src/middleware/warn-throttle.ts.
--                         Billing/Classify, Payer and Check: classifyEndpoint, identifyPayer and
--                         billing402Middleware of src/middleware/billing-402.ts. Billing/Pricing:
--                         queryEndpointPrice of src/billing/chain_query.ts
--   Cbor.antt             the canonical encoder of src/schemas/compute_metering_v1.ts, with a
--                         decoder by RFC 8949 in Cbor/Decode; Cbor/Entries: the order of entries
--   Validator.antt        validateComputeMeteringV1 and canonicalBody of the same file; the checks
--                         of single fields in Validator/Checks, their rules in Validator/Ensures
--   Heartbeats.antt       src/heartbeat-store.ts and the handler of POST /heartbeats of
--                         src/routes/heartbeats.ts from its rate limit on
--   Cleanup.antt          src/cleanup.ts
--   Fleet.antt            src/fleet_operators.ts
--   Firehose.antt         src/firehose/bus.ts
--   Journey.antt          src/routes/spo-journey-state.ts
-- A module named for what it proves (Replay, Slots, Lifecycle, Binding, Laws, ...) stands below the
-- part it is about; Tests modules run the definitions on concrete inputs.
--
-- How the parts meet: Auth/Resolve calls Tokens, Quota/Registry and Auth/Upload; Auth/Upload
-- spends signatures in Quota/Signatures; the routes then charge the upload in Quota/Uploads.
-- Billing/Check runs before every route: it classifies the request in Billing/Classify, which
-- warns through Billing/Throttle, and identifies the payer by a token of Tokens. Validator
-- encodes by Cbor and takes a worker's bounds and last period from Metering/Workers. Heartbeats
-- writes the latest heartbeats that Journey shows. Cleanup, Fleet and Firehose stand alone.
--
-- Choices. A function that writes a table takes it and returns it. A SELECT that fixes no order
-- and returns one row returns the first that was inserted. A transaction is the composition of
-- its statements, since SQLite runs it alone. Times are numbers of milliseconds (workers, tokens
-- and upload signatures: seconds), ordered as the texts that the code stores are; a day is a
-- number of days. Counters and byte counts are natural numbers without an upper bound, but the
-- totals of the billing aggregate are floating-point numbers. Texts that the code takes apart are
-- lists of character codes. The wording of errors is replaced by a constructor for each text.
--
-- Parameters: the SHA-256 of texts and of buffers, the sr25519 verifier, the address decoder, the
-- signature check of a heartbeat, the chain's answer for a receipt, the random bytes and drawn
-- key hashes, the balance check, balances and prices on the chain, and the platform's
-- floating-point numbers (their zero, the one for a safe integer, addition, bit patterns, sign,
-- and the comparison with a cap). Theorems that need it suppose that SHA-256 returns 32 bytes, or
-- that a drawn key hash is not the hash of a text.
--
-- Fuel: the Merkle loop has one round for each leaf and one to stop, and a round leaves fewer
-- nodes; base62 has 43 rounds, which 32 bytes never exceed; a number is printed in decimal with
-- one round more than the number. The client of Metering/Complete makes one request more than
-- there are rows.
--
-- Not modelled: HTTP routes and their parsing, the file store but for its cleanup without
-- interruptions, the clients of the chain, of cardano-db-sync and of Cardano, the sources and
-- streams of the firehose, the schemas of metering version 2 and of observations, logging and
-- schema migrations.
pub mod Prelude
pub mod Sql
pub mod Quota
pub mod Tokens
pub mod Merkle
pub mod Auth
pub mod Billing
pub mod Cbor
pub mod Metering
pub mod Cleanup
pub mod Firehose
pub mod Heartbeats
pub mod Fleet
pub mod Journey
pub mod Validator
