-- ===== src/Guard.antt =====
-- packages/db-inspector/src/guard.ts: the guard that lets only one SELECT through.
pub mod Words
pub mod Tokens
pub mod Scanners
pub mod Scan
pub mod Statement
pub mod Splits
pub mod Cover
pub mod Spelling
pub mod Balance
pub mod Comments
pub mod Skips
pub mod Accepts
pub mod Rounds
mod Tests
