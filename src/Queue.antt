-- ===== src/Queue.antt =====
-- The task queue (backend/python-daemon/orchestrator/queue_repo.py).
pub mod Tasks
pub mod Moves
pub mod Prune
pub mod Repo
pub mod Approvals
pub mod Ingest
pub mod Workers
pub mod Listing
pub mod Claiming
pub mod Exclusive
pub mod Outcomes
pub mod Moved
pub mod Evolution
pub mod Commits
pub mod Steps
pub mod Soundness
pub mod Releasing
pub mod Fates
pub mod Pruning
pub mod Methods
pub mod Keeping
pub mod Calls
