-- ===== src/Tests.antt =====
-- Concrete runs: the queue, the task graph and the rules on small inputs.
mod Samples
mod Claims
mod Tasks
mod Graph
mod Rules
mod Pipelines
mod Workers
mod Memories
mod Disk
mod Patches
mod Workflows
mod Prunes
mod Startups
