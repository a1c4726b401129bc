-- ===== src/Graph/Approval.antt =====
-- Approvals: backend/src/jarvis/graph/approval.py and approval_resume.py.
pub mod Request
pub mod Pause
pub mod Resume
