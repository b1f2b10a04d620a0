-- ===== src/Sync/Export.antt =====
-- internal/sync/sync.go, `exportBatch`.
pub mod Rows
pub mod Skip
mod Examples
use bqcubbit.Base.{ℕ, Text, Bool, true, false, ◌&&◌, Option, none, some, List, [], ◌∷◌}
use bqcubbit.Config.{is_empty}
use bqcubbit.Parquet.{WriteResult, WriteOutcome, written, broken, write_stream_result}
use bqcubbit.State.{TableState, PartitionState}
use bqcubbit.State as State
use bqcubbit.State.Sqlite.{Store}
use bqcubbit.State.Sqlite.Tables.{get_or_create_partition, update_partition_sync}
use bqcubbit.Storage.{Result, ok, err, object_exists}
use bqcubbit.Storage.Rename.{rename_object}
use bqcubbit.Storage.Multipart.{Body}
use bqcubbit.Sync.{PartitionInfo}
use bqcubbit.Sync.Keys.{Now, batch_staging_key, batch_final_key}
use bqcubbit.Sync.Manifests.{merge_manifest}
use bqcubbit.Sync.Orchestrator.{
  Orchestrator, World, piped, bytes_uploaded, sha_uploaded, upload_body,
}

pub data ExportError : Type 0 where
  upload_batch parquet_write rename_staging : ExportError

-- The partition id of the first and of the last partition of a batch.
unfoldable pub last_id : PartitionInfo → List PartitionInfo → Text
last_id p [] = p.partition_id
last_id p (q ∷ ps) = last_id q ps

module _ (o : Orchestrator) (now : Now) where
  -- ObjectExists on the path of an export, if there is one.
  unfoldable pub path_exists : Text → World o → Bool × World o
  path_exists [] (svc, s) = (false, (svc, s))
  path_exists (c ∷ cs) (svc, s) =
      let (there, svc') = object_exists o.s3 o.client (c ∷ cs) svc in (there, (svc', s))

  -- One round of the loop that looks whether all is exported.
  unfoldable pub exported_row : State.Result PartitionState × Store → o.s3.Service → Bool × World o
  unfolding path_exists
  exported_row (State.err e, s) svc = (false, (svc, s))
  exported_row (State.ok ps, s) svc = path_exists ps.last_exported_path (svc, s)

  unfoldable pub is_exported : ℕ → PartitionInfo → World o → Bool × World o
  unfolding exported_row
  is_exported table_id p (svc, s) =
      exported_row (get_or_create_partition now.seconds table_id p.partition_id s) svc

  -- `allExported` after the loop; it does not stop at the first partition that is not exported.
  unfoldable pub all_exported : ℕ → List PartitionInfo → World o → Bool × World o
  unfolding is_exported
  all_exported table_id [] w = (true, w)
  all_exported table_id (p ∷ ps) w =
      let (this, w') = is_exported table_id p w in
      let (others, w'') = all_exported table_id ps w' in (this && others, w'')

  -- What an export writes to the row of a partition.
  unfoldable pub exported_state : ℕ → ℕ → Text → PartitionState → PartitionState
  exported_state version bytes path ps = record ps {
    schema_version = version;
    last_successful_sync = some now.seconds;
    bytes_in_cubbit = bytes;
    last_exported_path = path;
  }

  unfoldable pub write_row : ℕ → ℕ → Text → State.Result PartitionState × Store → Store
  unfolding exported_state
  write_row version bytes path (State.err e, s) = s
  write_row version bytes path (State.ok ps, s) =
      (update_partition_sync (exported_state version bytes path ps) s).1

  -- The loop that updates the partitions of the batch.
  unfoldable pub write_rows : ℕ → ℕ → Text → ℕ → List PartitionInfo → Store → Store
  unfolding write_row
  write_rows version bytes path table_id [] s = s
  write_rows version bytes path table_id (p ∷ ps) s =
      write_rows version bytes path table_id ps (
        write_row version bytes path
          (get_or_create_partition now.seconds table_id p.partition_id s))

  -- What follows the rename: the manifest, whose error is only logged, and the rows.
  unfoldable pub after_rename :
      ℕ
      → TableState
      → List PartitionInfo
      → Text
      → Body
      → Result (Unit {0}) × o.s3.Service
      → Store
      → Option ExportError × World o
  unfolding write_rows
  after_rename version t batch path b (err e, svc) s = (some rename_staging, (svc, s))
  after_rename version t batch path b (ok x, svc) s =
      let svc' =
        (merge_manifest o.s3 o.codec o.client now.stamp t.dataset t.table_name path
          (bytes_uploaded o b) (sha_uploaded o b) svc).1 in
      (none, (svc', write_rows version (bytes_uploaded o b) path t.id batch s))

  -- What follows the upload: the error of the writer, and the rename.
  unfoldable pub after_upload :
      ℕ
      → TableState
      → List PartitionInfo
      → Text
      → Text
      → WriteOutcome WriteResult × Text
      → Result Text × o.s3.Service
      → Store
      → Option ExportError × World o
  unfolding after_rename
  after_upload version t batch staging path out (err e, svc) s = (some upload_batch, (svc, s))
  after_upload version t batch staging path (broken e, content) (ok tag, svc) s =
      (some parquet_write, (svc, s))
  after_upload version t batch staging path (written r, content) (ok tag, svc) s =
      after_rename version t batch path (piped (written r, content))
        (rename_object o.s3 o.client staging path svc) s

  -- What follows the look at the partitions. The writer runs beside the upload; the pipe between
  -- them hands its bytes on.
  unfoldable pub after_check :
      ℕ
      → TableState
      → PartitionInfo
      → List PartitionInfo
      → o.arrow.Schema
      → List o.arrow.Batch
      → Bool × World o
      → Option ExportError × World o
  unfolding after_upload last_id
  after_check version t p ps schema batches (true, w) = (none, w)
  after_check version t p ps schema batches (false, (svc, s)) =
      let staging = batch_staging_key now t.table_name p.partition_id in
      let path = batch_final_key t.dataset t.table_name version p.partition_id (last_id p ps) in
      let out = write_stream_result o.arrow schema batches in
      after_upload version t (p ∷ ps) staging path out (upload_body o staging (piped out) svc) s

  -- The answer is the error, `none` for nil.
  unfoldable pub export_batch :
      ℕ
      → TableState
      → List PartitionInfo
      → o.arrow.Schema
      → List o.arrow.Batch
      → World o
      → Option ExportError × World o
  unfolding after_check all_exported
  export_batch version t [] schema batches w = (none, w)
  export_batch version t (p ∷ ps) schema batches w =
      after_check version t p ps schema batches (all_exported t.id (p ∷ ps) w)
