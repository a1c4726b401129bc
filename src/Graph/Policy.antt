-- ===== src/Graph/Policy.antt =====
-- The evaluation of a plan under a policy: backend/src/jarvis/graph/policy.py.
pub mod Contract
pub mod Decide
pub mod Evaluate
pub mod Tighten
pub mod Heeded
pub mod Sound
pub mod Sorting
pub mod Projection
pub mod Proper
mod Tests
pub mod Executing
