-- ===== src/Plan.antt =====
-- pkg/harness/plan: plans, their steps, and the in-memory store of plan revisions.
pub mod Spec
pub mod Store
pub mod Revisions
