-- ===== src/OjTask/Lifecycle.antt =====
-- The life of a task: internal/service/system/ojTaskSvc.go with the drafts of ojTask_resolution.go, and
-- the dispatcher's attempts between its operations.
pub mod Draft
pub mod Materialize
pub mod Store
pub mod Create
pub mod Edit
pub mod Versions
pub mod Preflight
pub mod Decided
pub mod Prechecked
pub mod Upserted
pub mod Change
pub mod Consistent
pub mod Moved
pub mod Created
pub mod Edited
pub mod Chains
pub mod Stored
pub mod Versioned
pub mod Attempts
pub mod Reached
pub mod Finished
pub mod Paired
pub mod Passes
pub mod Passed
mod Tests
