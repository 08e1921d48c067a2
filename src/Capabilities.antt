-- ===== src/Capabilities.antt =====
-- The registry of capabilities and what fills it at startup
-- (backend/python-daemon/orchestrator/capabilities).
pub mod Models
pub mod Registry
pub mod Loader
pub mod Rows
pub mod Startup
