-- ===== src/Sync/Full.antt =====
-- internal/sync/sync.go, `SyncTable`: the full export of one table.
pub mod Claims
pub mod Runs
mod Examples
use bqcubbit.Base.{ℕ, Text, codes, Bool, true, false, Option, none, some, List, [], ◌∷◌, ◌++◌}
use bqcubbit.Manifest.{new, add_file}
use bqcubbit.Parquet.{WriteOutcome, write_stream}
use bqcubbit.State.{
  SyncRun, TableState, RunState, Task, pending, completed, failed, Result, ok, err,
}
use bqcubbit.State.Sqlite.{Store}
use bqcubbit.State.Sqlite.Runs.{begin_run}
use bqcubbit.State.Sqlite.Tables.{get_or_create_table}
use bqcubbit.State.Sqlite.Tasks.{create_tasks, claim_task, update_task_state}
use bqcubbit.Storage.{upload_stream}
use bqcubbit.Sync.Keys.{Now, decimal, table_output_key, table_manifest_key}
use bqcubbit.Sync.Orchestrator.{Orchestrator, World, piped, upload_pipe}
use bqcubbit.Sync.All.{end_run}

pub data FullError : Type 0 where
  begin_run_failed no_table no_schema no_rows create_failed claim_failed upload_failed
        update_failed :
      FullError

-- `tasks[0]`: the members that are set, and Go's zero values.
abbrev pub full_task : Text → ℕ → ℕ → Task
full_task id run_id table_id = record {
  id = id;
  sync_run_id = run_id;
  table_id = table_id;
  schema_version = 0;
  partition_id = codes "full";
  shard_idx = 0;
  state = pending;
  worker_id = none;
  lease_expires_at = none;
  lease_generation = 0;
  bytes_read = 0;
  bytes_written = 0;
  retry_count = 0;
  last_error = none;
  created_at = 0;
  completed_at = none;
}

abbrev pub full_worker : Text
full_worker = codes "worker-0"

-- `taskID`
unfoldable pub full_task_id : Now → Text → Text → Text → Text
unfolding decimal
full_task_id now project dataset table =
    project
    ++ (codes "-" ++ (dataset ++ (codes "-" ++ (table ++ (codes "-" ++ decimal now.seconds)))))

module _ (o : Orchestrator) (now : Now) (dataset table : Text) where
  open o use {arrow}

  abbrev pub project : Text
  project = o.cfg.source.project_id

  -- The manifest of the one file, which encoding/json can always write; an error of its upload is
  -- logged.
  unfoldable pub write_manifest : Text → o.s3.Service → o.s3.Service
  write_manifest output svc =
      (upload_stream o.s3 o.client
        (table_manifest_key o.cfg.destination.prefix project dataset table)
        (o.codec.serialize (add_file output 0 0 [] (new now.stamp))) svc).1

  -- What follows the last write of the task.
  unfoldable pub full_done :
      Text → o.s3.Service → Result (Unit {0}) × Store → Option FullError × World o
  unfolding write_manifest
  full_done output svc (err e, s) = (some update_failed, (svc, s))
  full_done output svc (ok x, s) = (none, (write_manifest output svc, s))

  -- What follows the upload.
  unfoldable pub full_uploaded :
      Task → Text → Bool × o.s3.Service → Store → Option FullError × World o
  unfolding full_done
  full_uploaded t output (false, svc) s =
      (some upload_failed, (svc, (update_task_state t.id failed t.lease_generation s).1))
  full_uploaded t output (true, svc) s =
      full_done output svc (update_task_state t.id completed t.lease_generation s)

  -- What follows the claim.
  unfoldable pub full_claimed :
      arrow.Schema
      → List arrow.Batch
      → Result Task × Store
      → o.s3.Service
      → Option FullError × World o
  unfolding full_uploaded
  full_claimed schema batches (err e, s) svc = (some claim_failed, (svc, s))
  full_claimed schema batches (ok t, s) svc =
      let output = table_output_key now o.cfg.destination.prefix project dataset table in
      full_uploaded t output (upload_pipe o output (piped (write_stream arrow schema batches)) svc)
        s

  unfoldable pub full_created :
      arrow.Schema
      → List arrow.Batch
      → Result (Unit {0}) × Store
      → o.s3.Service
      → Option FullError × World o
  unfolding full_claimed
  full_created schema batches (err e, s) svc = (some create_failed, (svc, s))
  full_created schema batches (ok x, s) svc =
      full_claimed schema batches (claim_task now.seconds full_worker s) svc

  unfoldable pub full_read :
      ℕ
      → TableState
      → Option arrow.Schema
      → Option (List arrow.Batch)
      → World o
      → Option FullError × World o
  unfolding full_created full_task_id
  full_read run_id t none batches w = (some no_schema, w)
  full_read run_id t (some schema) none w = (some no_rows, w)
  full_read run_id t (some schema) (some batches) (svc, s) =
      full_created schema batches
        (create_tasks now.seconds
          (full_task (full_task_id now project dataset table) run_id t.id ∷ []) s)
        svc

  unfoldable pub full_table :
      ℕ → Result TableState × Store → o.s3.Service → Option FullError × World o
  unfolding full_read
  full_table run_id (err e, s) svc = (some no_table, (svc, s))
  full_table run_id (ok t, s) svc =
      full_read run_id t (o.schema project dataset table) (o.read_table project dataset table)
        (svc, s)

  -- The deferred call, on the error that is returned.
  unfoldable pub full_ended : ℕ → Option FullError × World o → Option FullError × World o
  full_ended run_id (none, w) = (none, end_run o now run_id RunState.completed w)
  full_ended run_id (some e, w) = (some e, end_run o now run_id RunState.failed w)

  unfoldable pub full_begun : Result SyncRun × Store → o.s3.Service → Option FullError × World o
  unfolding full_table full_ended
  full_begun (err e, s) svc = (some begin_run_failed, (svc, s))
  full_begun (ok run, s) svc =
      full_ended run.id (full_table run.id (get_or_create_table project dataset table s) svc)

  -- `SyncTable`; the answer is the error, `none` for nil.
  unfoldable pub sync_full_table : World o → Option FullError × World o
  unfolding full_begun
  sync_full_table (svc, s) = full_begun (begin_run now.seconds s) svc
