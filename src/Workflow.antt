-- ===== src/Workflow.antt =====
-- The runner of the agent's workflows (backend/python-daemon/orchestrator/agent_workflow).
pub mod Compaction
pub mod Args
pub mod State
pub mod Steps
pub mod Runner
pub mod Progress
pub mod Resolved
pub mod Bounds
pub mod Guarded
