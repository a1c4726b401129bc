-- ===== src/Graph.antt =====
-- The nodes of the agent graph: backend/src/jarvis/graph.
pub mod Patterns
pub mod Node
pub mod Plan
pub mod Policy
pub mod State
pub mod Verification
pub mod Approval
pub mod Dispatch
