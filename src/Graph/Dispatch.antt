-- ===== src/Graph/Dispatch.antt =====
-- The dispatch of one action: backend/src/jarvis/graph/dispatch.py.
pub mod Contract
pub mod Input
pub mod Action
pub mod Licence
pub mod Ready
pub mod Approved
pub mod Authority
mod Tests
