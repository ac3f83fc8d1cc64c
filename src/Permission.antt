-- ===== src/Permission.antt =====
-- packages/daemon/src/permission.ts: the action classes of the methods, the permission modes, the
-- operator's grants, the queue of approvals, and the gate that a call passes.
pub mod Methods
pub mod Paths
pub mod Policy
pub mod Tables
pub mod Grants
pub mod Approvals
pub mod Gate
pub mod Summary
pub mod Floor
pub mod Decisions
pub mod Receipts
pub mod History
pub mod SingleUse
pub mod SelfApproval
pub mod Flood
pub mod Uses
pub mod Allowance
pub mod Issuing
pub mod Budget
pub mod GrantHistory
pub mod Passage
pub mod Anchor
pub mod Door
pub mod Requests
pub mod Refusal
pub mod GrantRequests
mod Tests
mod RequestTests
