-- ===== src/Sync/Executor/Task.antt =====
-- internal/sync/executor.go, `ExecuteTask` and `resolveTask`.
use bqcubbit.Base.{
  ℕ, Text, codes, str_eq, Bool, true, false, not, ◌||◌, Option, none, some, List, [], ◌∷◌,
  if◌then◌else◌,
}
use bqcubbit.Manifest.{TableManifest}
use bqcubbit.Parquet.{WriteResult, WriteOutcome, written, broken, write_stream_result}
use bqcubbit.State.{TableState, PartitionState, Task, assigned, completed, failed, Result, ok, err}
use bqcubbit.State.Sqlite.{Store}
use bqcubbit.State.Sqlite.Tables.{get_table_by_id, get_or_create_partition, update_partition_sync}
use bqcubbit.State.Sqlite.Tasks.{list_tasks_by_state, update_task_state}
use bqcubbit.Storage
use bqcubbit.Storage.Rename.{rename_object}
use bqcubbit.Storage.Multipart.{Body}
use bqcubbit.Sync.Keys.{Now, task_staging_key, task_final_key}
use bqcubbit.Sync.Orchestrator.{
  Orchestrator, World, piped, bytes_uploaded, sha_uploaded, upload_body,
}
use bqcubbit.Sync.Export.{path_exists}
use bqcubbit.Sync.Executor.Version.{SchemaCodec, resolve_schema_version}
use bqcubbit.Sync.Executor.Manifest.{update_manifest}

pub data TaskError : Type 0 where
  no_task no_table no_schema no_rows no_version no_upload_slot upload_partition parquet_write
        rename_staging task_not_updated :
      TaskError

-- `TaskExecutor`: the members that it shares with the orchestrator, encoding/json on schemas and
-- manifests, io.ReadAll, and the names and types of the fields of an Arrow schema.
pub record TaskExecutor : Type 1 where
  pub base : Orchestrator
  pub schema_codec : SchemaCodec
  pub fields_of : base.arrow.Schema → List (Text × Text)
  pub read_all : Text → Option Text
  pub serialize : TableManifest → Option Text

-- The loop of `resolveTask`.
unfoldable pub find_task : Text → List Task → Option Task
find_task id [] = none
find_task id (t ∷ ts) = if str_eq t.id id then some t else find_task id ts

unfoldable pub task_in : Text → Result (List Task) × Store → Option Task × Store
unfolding find_task
task_in id (err e, s) = (none, s)
task_in id (ok ts, s) = (find_task id ts, s)

unfoldable pub resolve_task : Text → Store → Option Task × Store
unfolding task_in
resolve_task id s = task_in id (list_tasks_by_state assigned s)

-- task.PartitionID != "" && task.PartitionID != "full"
unfoldable pub has_partition : Task → Bool
has_partition t = not (str_eq t.partition_id [] || str_eq t.partition_id (codes "full"))

-- The times are those before the upload and after it; `slot` is whether the limiter lets the upload
-- go, and `again` the answer of the reader to the second request for the schema.
module _ (x : TaskExecutor) (now later : Now) (slot : Bool)
    (again : Option x.base.arrow.Schema) where
  abbrev pub W : Type 0
  W = World x.base

  -- A write of the task's state whose error is dropped, and the error that is returned.
  unfoldable pub give_up : TaskError → Task → W → Option TaskError × W
  give_up e t (svc, s) = (some e, (svc, (update_task_state t.id failed t.lease_generation s).1))

  -- What is written to the row of the partition.
  unfoldable pub task_row_state : ℕ → ℕ → ℕ → Text → PartitionState → PartitionState
  task_row_state version rows bytes path ps = record ps {
    schema_version = version;
    last_successful_sync = some later.seconds;
    row_count = rows;
    bytes_in_cubbit = bytes;
    last_exported_path = path;
  }

  unfoldable pub write_task_row : ℕ → ℕ → ℕ → Text → Result PartitionState × Store → Store
  unfolding task_row_state
  write_task_row version rows bytes path (err e, s) = s
  write_task_row version rows bytes path (ok ps, s) =
      (update_partition_sync (task_row_state version rows bytes path ps) s).1

  -- The last write.
  unfoldable pub task_ended : x.base.s3.Service → Result (Unit {0}) × Store → Option TaskError × W
  task_ended svc (err e, s) = (some task_not_updated, (svc, s))
  task_ended svc (ok u, s) = (none, (svc, s))

  -- What follows the rename.
  unfoldable pub task_renamed :
      Task
      → TableState
      → ℕ
      → WriteResult
      → Text
      → Body
      → Storage.Result (Unit {0}) × x.base.s3.Service
      → Store
      → Option TaskError × W
  unfolding give_up write_task_row task_ended
  task_renamed t table version result path b (Storage.err e, svc) s =
      give_up rename_staging t (svc, s)
  task_renamed t table version result path b (Storage.ok u, svc) s =
      let svc' =
        (update_manifest x.base.s3 x.base.codec x.base.client later.stamp x.read_all x.serialize
          table.dataset table.table_name path (bytes_uploaded x.base b) (sha_uploaded x.base b)
          svc).1 in
      let s' =
        write_task_row version result.row_count (bytes_uploaded x.base b) path
          (get_or_create_partition later.seconds table.id t.partition_id s) in
      task_ended svc' (update_task_state t.id completed t.lease_generation s')

  -- What follows the upload.
  unfoldable pub task_uploaded :
      Task
      → TableState
      → ℕ
      → Text
      → WriteOutcome WriteResult × Text
      → Storage.Result Text × x.base.s3.Service
      → Store
      → Option TaskError × W
  unfolding task_renamed
  task_uploaded t table version staging out (Storage.err e, svc) s =
      give_up upload_partition t (svc, s)
  task_uploaded t table version staging (broken e, content) (Storage.ok tag, svc) s =
      give_up parquet_write t (svc, s)
  task_uploaded t table version staging (written r, content) (Storage.ok tag, svc) s =
      let path = task_final_key later table.dataset table.table_name version t.partition_id in
      task_renamed t table version r path (piped (written r, content))
        (rename_object x.base.s3 x.base.client staging path svc) s

  -- What follows the answer of the limiter.
  unfoldable pub task_slot :
      Bool
      → Task
      → TableState
      → x.base.arrow.Schema
      → List x.base.arrow.Batch
      → ℕ
      → W
      → Option TaskError × W
  unfolding task_uploaded
  task_slot false t table schema batches version w = (some no_upload_slot, w)
  task_slot true t table schema batches version (svc, s) =
      let staging = task_staging_key now table.table_name t.partition_id in
      let out = write_stream_result x.base.arrow schema batches in
      task_uploaded t table version staging out (upload_body x.base staging (piped out) svc) s

  -- What follows the schema version.
  unfoldable pub task_versioned :
      Task
      → TableState
      → x.base.arrow.Schema
      → List x.base.arrow.Batch
      → Result ℕ × Store
      → x.base.s3.Service
      → Option TaskError × W
  unfolding task_slot
  task_versioned t table schema batches (err e, s) svc = (some no_version, (svc, s))
  task_versioned t table schema batches (ok version, s) svc =
      task_slot slot t table schema batches version (svc, s)

  -- What follows the look at the partition, and the read of the table.
  unfoldable pub task_read :
      Task
      → TableState
      → x.base.arrow.Schema
      → Option (List x.base.arrow.Batch)
      → W
      → Option TaskError × W
  unfolding task_versioned
  task_read t table schema none w = (some no_rows, w)
  task_read t table schema (some batches) (svc, s) =
      task_versioned t table schema batches
        (resolve_schema_version x.schema_codec now.seconds table.id
          (elim again [ none ↦ none | some a ↦ some (x.fields_of a) ]) s)
        svc

  -- The answer to the look: exported and there, or not.
  unfoldable pub task_checked :
      Task → TableState → x.base.arrow.Schema → Bool × W → Option TaskError × W
  unfolding task_read
  task_checked t table schema (true, (svc, s)) =
      (none, (svc, (update_task_state t.id completed t.lease_generation s).1))
  task_checked t table schema (false, w) =
      task_read t table schema
        (x.base.read_table x.base.cfg.source.project_id table.dataset table.table_name) w

  unfoldable pub partition_found : x.base.s3.Service → Result PartitionState × Store → Bool × W
  partition_found svc (err e, s) = (false, (svc, s))
  partition_found svc (ok ps, s) = path_exists x.base now ps.last_exported_path (svc, s)

  unfoldable pub look_up_partition : Task → TableState → W → Bool × W
  unfolding partition_found has_partition
  look_up_partition t table (svc, s) =
      if has_partition t
      then partition_found svc (get_or_create_partition now.seconds table.id t.partition_id s)
      else (false, (svc, s))

  unfoldable pub task_schema :
      Task → TableState → Option x.base.arrow.Schema → W → Option TaskError × W
  unfolding task_checked look_up_partition
  task_schema t table none w = (some no_schema, w)
  task_schema t table (some schema) w = task_checked t table schema (look_up_partition t table w)

  unfoldable pub task_table :
      Task → Result TableState × Store → x.base.s3.Service → Option TaskError × W
  unfolding task_schema
  task_table t (err e, s) svc = (some no_table, (svc, s))
  task_table t (ok table, s) svc =
      task_schema t table
        (x.base.schema x.base.cfg.source.project_id table.dataset table.table_name) (svc, s)

  unfoldable pub task_resolved : Option Task × Store → x.base.s3.Service → Option TaskError × W
  unfolding task_table
  task_resolved (none, s) svc = (some no_task, (svc, s))
  task_resolved (some t, s) svc = task_table t (get_table_by_id t.table_id s) svc

  -- `ExecuteTask`; the answer is the error, `none` for nil.
  unfoldable pub execute_task : Text → W → Option TaskError × W
  unfolding task_resolved resolve_task
  execute_task id (svc, s) = task_resolved (resolve_task id s) svc
