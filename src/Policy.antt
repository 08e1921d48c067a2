-- ===== src/Policy.antt =====
-- The rules that decide what a tool, a command or a capability may do.
pub mod Sandbox
pub mod Allowed
pub mod Approval
pub mod GitCommands
pub mod Tools
pub mod Capabilities
pub mod Integrations
