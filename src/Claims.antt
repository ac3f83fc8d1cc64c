-- ===== src/Claims.antt =====
-- The tasks.* handlers of packages/daemon/src/server.ts, by which agents share out work.
pub mod Tasks
pub mod Exclusion
mod Tests
