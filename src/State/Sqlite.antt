-- ===== src/State/Sqlite.antt =====
-- internal/state/sqlite.go: the tables of the database. Each statement of SQL is an operation on
-- lists of rows, in the order of the row ids.
pub mod Runs
pub mod Tables
pub mod Tasks
pub mod Versions
pub mod Locks
pub mod Dashboard
use bqcubbit.Base.{ℕ, Text, List, [], ◌∷◌, codes, str_eq, any, Option}
use bqcubbit.State.{SyncRun, TableState, Task, SchemaVersion, PartitionState, JobLock}

-- The database. The `next_` fields are the AUTOINCREMENT sequences.
pub record Store : Type 0 where
  pub runs : List SyncRun
  pub tables : List TableState
  pub tasks : List Task
  pub versions : List SchemaVersion
  pub partitions : List PartitionState
  pub locks : List JobLock
  pub next_run : ℕ
  pub next_table : ℕ
  pub next_version : ℕ
  pub next_partition : ℕ

-- `Init` on a fresh file: every table is there and empty, and the `ALTER TABLE` fails because the
-- column is there already, which is ignored. `job_locks` is made by the first `AcquireJobLock`.
unfoldable pub init : Store
init = record {
  runs = [];
  tables = [];
  tasks = [];
  versions = [];
  partitions = [];
  locks = [];
  next_run = 1;
  next_table = 1;
  next_version = 1;
  next_partition = 1;
}

-- The columns that `Init` gives to the table `tables`.
abbrev pub table_columns : List Text
table_columns =
    codes "id"
    ∷ codes "project"
    ∷ codes "dataset"
    ∷ codes "table_name"
    ∷ codes "current_schema_version"
    ∷ codes "last_sync_watermark"
    ∷ codes "last_modified_time"
    ∷ []
