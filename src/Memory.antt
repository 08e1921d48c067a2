-- ===== src/Memory.antt =====
-- Projects, the partition that a client works in, and its memories
-- (backend/python-daemon/orchestrator/active_partition and memory).
pub mod Schema
pub mod Partitions
pub mod Mapper
pub mod Activation
pub mod Polls
pub mod Watcher
pub mod Records
pub mod Commit
pub mod Views
pub mod Registered
pub mod Kept
pub mod Counting
