-- ===== src/State.antt =====
-- internal/state/store.go: the records of the state store and what its operations may return.
pub mod Sqlite
pub mod Samples
mod Examples
use bqcubbit.Base.{ℕ, Text, Option, List}

-- Times are whole seconds. `*time.Time` and `*string` that may be nil are options.

-- The values that the program writes to `sync_runs.state`.
pub data RunState : Type 0 where
  running completed failed aborted cancelled : RunState

pub record SyncRun : Type 0 where
  pub id : ℕ
  pub started_at : ℕ
  pub completed_at : Option ℕ
  pub state : RunState
  pub total_tasks : ℕ
  pub completed_tasks : ℕ
  pub failed_tasks : ℕ

pub record TableState : Type 0 where
  pub id : ℕ
  pub project : Text
  pub dataset : Text
  pub table_name : Text
  pub schema_version : ℕ
  pub last_sync_watermark : Option ℕ
  pub last_modified_time : Option ℕ

-- The values that the program writes to `tasks.state`.
pub data TaskState : Type 0 where
  pending assigned completed failed : TaskState

pub record Task : Type 0 where
  pub id : Text
  pub sync_run_id : ℕ
  pub table_id : ℕ
  pub schema_version : ℕ
  pub partition_id : Text
  pub shard_idx : ℕ
  pub state : TaskState
  pub worker_id : Option Text
  pub lease_expires_at : Option ℕ
  pub lease_generation : ℕ
  pub bytes_read : ℕ
  pub bytes_written : ℕ
  pub retry_count : ℕ
  pub last_error : Option Text
  pub created_at : ℕ
  pub completed_at : Option ℕ

pub record SchemaVersion : Type 0 where
  pub id : ℕ
  pub table_id : ℕ
  pub version : ℕ
  pub schema_hash : Text
  pub schema_json : Text
  pub change_type : Text
  pub changes_json : Text
  pub valid_from : ℕ

pub record PartitionState : Type 0 where
  pub id : ℕ
  pub table_id : ℕ
  pub partition_id : Text
  pub schema_version : ℕ
  pub bq_last_modified : ℕ
  pub last_successful_sync : Option ℕ
  pub row_count : ℕ
  pub bytes_in_cubbit : ℕ
  pub last_exported_path : Text

pub record DashboardTableSummary : Type 0 where
  pub dataset : Text
  pub table_name : Text
  pub schema_version : ℕ
  pub last_sync_time : Option ℕ
  pub partition_count : ℕ
  pub total_rows : ℕ
  pub total_bytes : ℕ

-- A row of `job_locks`.
pub record JobLock : Type 0 where
  pub lock_name : Text
  pub acquired_at : ℕ
  pub ttl_seconds : ℕ

-- The errors that the store makes itself, and `database` for those of the driver.
pub data StoreError : Type 0 where
  no_rows no_pending_tasks generation_mismatch unique_violation no_such_column database : StoreError

pub data Result {ℓ} (A : Type ℓ) : Type ℓ where
  ok : A → Result A
  err : StoreError → Result A

-- What a call of the store returns, with the store after it.
abbrev pub Action {ℓ} : Type ℓ → Type ℓ → Type ℓ
Action S A = S → Result A × S
