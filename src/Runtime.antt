-- ===== src/Runtime.antt =====
-- pkg/harness/runtime: the kernel's own decisions.
pub mod Transition
pub mod Advance
pub mod Budgets
pub mod Retry
pub mod SessionUpdate
pub mod PlanOutcome
pub mod Driver
pub mod PlanIdentity
pub mod SessionNotes
pub mod Planning
pub mod Coordination
pub mod Recovery
pub mod ErrorTaxonomy
pub mod Handles
pub mod Rollback
pub mod Blocked
pub mod ApprovalFlow
