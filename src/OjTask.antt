-- ===== src/OjTask.antt =====
-- Judging tasks of the online judges: internal/service/system/ojTaskDispatcher.go.
pub mod Types
pub mod Dispatch
pub mod Snapshot
pub mod Build
pub mod Counted
pub mod Built
pub mod Outcome
pub mod Attempted
pub mod Acknowledged
pub mod Runs
pub mod Carried
pub mod Solved
pub mod Persist
pub mod Owned
pub mod Persisted
pub mod Lifecycle
mod Tests
