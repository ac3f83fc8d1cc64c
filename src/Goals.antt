-- ===== src/Goals.antt =====
-- packages/daemon/src/goals: goals with acceptance criteria.
pub mod Store
pub mod Progress
pub mod Harness
pub mod Criteria
pub mod Calls
pub mod Steps
pub mod History
pub mod Ready
pub mod Completion
pub mod Transitions
pub mod Evidence
pub mod Backed
pub mod Rpc
mod Tests
