-- ===== src/Dag.antt =====
-- Descendants in the task graph (backend/python-daemon/orchestrator/dag_runtime.py).
pub mod Descend
pub mod Reaches
pub mod Collect
pub mod Order
pub mod Acyclic
pub mod Levels
pub mod Nodes
pub mod Topological
