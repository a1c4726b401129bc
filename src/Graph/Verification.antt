-- ===== src/Graph/Verification.antt =====
-- The independent verification of an outcome: backend/src/jarvis/graph/verification.py.
pub mod Contract
pub mod Judge
pub mod Observe
pub mod Input
pub mod Verify
pub mod Success
pub mod Collected
pub mod Accepted
pub mod Aggregate
pub mod Complete
pub mod Recorded
mod Tests
