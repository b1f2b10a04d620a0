-- ===== src/Sync.antt =====
-- internal/sync: the partitions of the source, their grouping, and the export of a table.
pub mod Keys
pub mod Orchestrator
pub mod Export
pub mod Discover
pub mod Dates
pub mod Groups
pub mod Batches
pub mod Table
pub mod All
pub mod Full
pub mod Executor
pub mod Errors
pub mod Manifests
pub mod Samples
mod Examples
use bqcubbit.Base.{ℕ, Text}

-- internal/sync/partitions.go, `PartitionInfo`.
pub record PartitionInfo : Type 0 where
  pub table_project : Text
  pub table_dataset : Text
  pub table_name : Text
  pub partition_id : Text
  pub total_rows : ℕ
  pub total_logical_bytes : ℕ
  pub last_modified_time : ℕ
