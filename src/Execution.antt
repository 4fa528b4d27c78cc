-- ===== src/Execution.antt =====
-- pkg/harness/execution: the results of fan-out aggregates, and the stores of execution records.
pub mod Aggregate
pub mod Counts
pub mod Tally
pub mod Items
pub mod Handles
pub mod Blocked
pub mod Attempts
pub mod Actions
pub mod Verifications
pub mod Artifacts
pub mod Listing
