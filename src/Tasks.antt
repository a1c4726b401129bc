-- ===== src/Tasks.antt =====
-- The task API's core: backend/src/jarvis/tasks (models.py, repository.py, service.py).
pub mod Errors
pub mod Model
pub mod Repository
pub mod Control
pub mod Sequence
pub mod Invariant
pub mod Steps
pub mod Frame
pub mod Kept
pub mod Once
pub mod Service
pub mod Pages
pub mod Tests
