-- ===== src/Identity.antt =====
-- packages/protocol/src/base58.ts and packages/protocol/src/did.ts: how agents and keys are named.
pub mod Radix
pub mod Base58
pub mod Transcode
pub mod Alphabet
pub mod RoundTrip
pub mod Did
pub mod DidRoundTrip
mod Tests
