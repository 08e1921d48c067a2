-- ===== src/Patching.antt =====
-- Patches: their artifacts and approvals, and how an approved one is applied, tested and rolled back
-- (backend/python-daemon/orchestrator/patching).
pub mod Io
pub mod Os
pub mod Schema
pub mod Repo
pub mod Snapshots
pub mod Rollback
pub mod Described
pub mod Targets
pub mod Restoring
pub mod Returning
pub mod Diffs
pub mod Validation
pub mod TestRunner
pub mod Authorize
pub mod Authorized
pub mod Outcomes
pub mod Apply
pub mod Safety
pub mod Bounds
pub mod Keeping
pub mod KeepingBack
pub mod Recorded
pub mod Declared
