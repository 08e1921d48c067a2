-- ===== src/Pipeline.antt =====
-- Pipelines: their templates, and how they are compiled to a plan
-- (backend/python-daemon/orchestrator/pipeline).
pub mod Variables
pub mod Models
pub mod Compiler
pub mod Names
pub mod Loader
pub mod Shallow
pub mod Loading
pub mod Scanning
pub mod Bindings
pub mod Ordering
pub mod Plans
