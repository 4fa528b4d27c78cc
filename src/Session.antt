-- ===== src/Session.antt =====
-- pkg/harness/session: the session record, the in-memory store and its leases.
pub mod State
pub mod Store
pub mod Order
pub mod Claim
pub mod Lease
pub mod Handover
pub mod Update
pub mod History
