-- ===== src/Sync/Executor.antt =====
-- internal/sync/executor.go: the task executor of the workers.
pub mod Version
pub mod Sticks
pub mod Manifest
pub mod Task
pub mod Partitions
pub mod Found
pub mod Ways
pub mod Steps
pub mod Exact
mod Examples
