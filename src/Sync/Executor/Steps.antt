-- ===== src/Sync/Executor/Steps.antt =====
-- From the read of the table to the row of its partition, which way `ExecuteTask` goes.
use bqcubbit.Base.{
  ℕ, ◌%◌, Text, Bool, true, false, Option, none, some, List, ◌≡◌, ◌⊎◌, refl, sym, ap, ◌∙◌, inl, inr,
  length,
}
use bqcubbit.Hash.{int64_values}
use bqcubbit.Parquet.{WriteResult, WriteOutcome, written, broken, write_stream_result}
use bqcubbit.State.{TableState, Task, TaskState, Result, ok, err}
use bqcubbit.State.Sqlite.{Store}
use bqcubbit.State.Sqlite.Tables.{get_or_create_partition}
use bqcubbit.State.Sqlite.Tables.Partitions.{partition_row}
use bqcubbit.State.Sqlite.Tasks.{update_task_state}
use bqcubbit.Storage
use bqcubbit.Storage.Multipart.{Body}
use bqcubbit.Storage.Rename.{rename_object}
use bqcubbit.Sync.Keys.{Now, task_final_key, task_staging_key}
use bqcubbit.Sync.Orchestrator.{
  World, piped, bytes_uploaded, bytes_uploaded-piped, sha_uploaded, upload_body,
}
use bqcubbit.Sync.Executor.Manifest.{update_manifest}
use bqcubbit.Sync.Executor.Partitions.{resolve_schema_version-partitions}
use bqcubbit.Sync.Executor.Version.{resolve_schema_version}
use bqcubbit.Sync.Executor.Task.{
  no_rows, no_version, no_upload_slot, upload_partition, parquet_write, rename_staging,
  TaskExecutor, write_task_row, task_renamed, task_uploaded, task_slot, task_versioned, task_read,
}
use bqcubbit.Sync.Executor.Found.{TaskOf, TableOf}
use bqcubbit.Sync.Executor.Ways.{
  VersionOf, KeepsPaths-of, Done, Failed, Failed-from, give_up-Failed, task_ended-answer,
  write_task_row-row,
}

module _ (x : TaskExecutor) (now later : Now) (slot : Bool)
    (again : Option x.base.arrow.Schema) where
  module _ (id : Text) (start : Store) (t : Task) (is_task : TaskOf id start t) (table : TableState)
      (is_table : TableOf t start table) (schema : x.base.arrow.Schema)
      (fetched : x.base.schema x.base.cfg.source.project_id table.dataset table.table_name
        ≡ some schema)
      (batches : List x.base.arrow.Batch)
      (read : x.base.read_table x.base.cfg.source.project_id table.dataset table.table_name
        ≡ some batches) where
    task_renamed-ways :
        (version : ℕ) (is_version : VersionOf x now later slot again start table.id version)
        (b : Body) (w : WriteResult)
        (done : (write_stream_result x.base.arrow schema batches).0 ≡ written w)
        (bytes : bytes_uploaded x.base b
          ≡ length (write_stream_result x.base.arrow schema batches).1 % int64_values)
        (r : Storage.Result (Unit {0}) × x.base.s3.Service) (s : Store)
        → Failed x now later slot again s (
            task_renamed x now later slot again t table version w
              (task_final_key later table.dataset table.table_name version t.partition_id)
              b
              r
              s)
          ⊎ Done x now later slot again id start (
              task_renamed x now later slot again t table version w
                (task_final_key later table.dataset table.table_name version t.partition_id)
                b
                r
                s)
    unfolding task_renamed update_task_state
    task_renamed-ways version is_version b w done bytes (Storage.err e, svc) s =
        inl (give_up-Failed x now later slot again rename_staging t svc s (λ h. absurd (cc)))
    task_renamed-ways version is_version b w done bytes (Storage.ok u, svc) s =
        let path = task_final_key later table.dataset table.table_name version t.partition_id in
        let (row, at, p, v, l, n, k) =
          write_task_row-row x now later slot again version w.row_count (bytes_uploaded x.base b)
            table.id path t.partition_id s in
        let s' : Store =
          write_task_row x now later slot again version w.row_count (bytes_uploaded x.base b) path
            (get_or_create_partition later.seconds table.id t.partition_id s) in
        let (answer, left) =
          task_ended-answer x now later slot again
            (update_manifest x.base.s3 x.base.codec x.base.client later.stamp x.read_all x.serialize
              table.dataset table.table_name path (bytes_uploaded x.base b) (sha_uploaded x.base b)
              svc).1
            (update_task_state t.id TaskState.completed t.lease_generation s') in
        inr (record {
          task = t;
          table = table;
          version = version;
          schema = schema;
          batches = batches;
          result = w;
          row = row;
          is_task = is_task;
          is_table = is_table;
          is_version = is_version;
          was_fetched = fetched;
          was_read = read;
          was_written = done;
          is_row = ap (partition_row table.id t.partition_id) left ∙ at;
          path = p;
          at_version = v;
          synced = l;
          rows = n;
          bytes = k ∙ bytes;
          answer = answer;
        })

    task_uploaded-ways :
        (version : ℕ) (is_version : VersionOf x now later slot again start table.id version)
        (staging : Text) (out : WriteOutcome WriteResult × Text)
        → write_stream_result x.base.arrow schema batches ≡ out
        → (r : Storage.Result Text × x.base.s3.Service) (s : Store)
        → Failed x now later slot again s
            (task_uploaded x now later slot again t table version staging out r s)
          ⊎ Done x now later slot again id start
              (task_uploaded x now later slot again t table version staging out r s)
    unfolding task_uploaded
    task_uploaded-ways version is_version staging out e (Storage.err f, svc) s =
        inl (give_up-Failed x now later slot again upload_partition t svc s (λ h. absurd (cc)))
    task_uploaded-ways version is_version staging (broken f, content) e (Storage.ok tag, svc) s =
        inl (give_up-Failed x now later slot again parquet_write t svc s (λ h. absurd (cc)))
    task_uploaded-ways version is_version staging (written w, content) e (Storage.ok tag, svc) s =
        task_renamed-ways version is_version (piped (written w, content)) w
          (ap (λ (o : WriteOutcome WriteResult × Text). o.0) e)
          (bytes_uploaded-piped x.base (written w, content)
            ∙ ap (λ (o : WriteOutcome WriteResult × Text). length o.1 % int64_values) (sym e))
          (rename_object x.base.s3 x.base.client staging
            (task_final_key later table.dataset table.table_name version t.partition_id) svc)
          s

    task_slot-ways :
        (free : Bool) (version : ℕ)
        (is_version : VersionOf x now later slot again start table.id version) (w : World x.base)
        → Failed x now later slot again w.1
            (task_slot x now later slot again free t table schema batches version w)
          ⊎ Done x now later slot again id start
              (task_slot x now later slot again free t table schema batches version w)
    unfolding task_slot
    task_slot-ways false version is_version w =
        inl (no_upload_slot, refl, (λ h. absurd (cc)), λ table_id id. refl)
    task_slot-ways true version is_version (svc, s) =
        let staging = task_staging_key now table.table_name t.partition_id in
        let out = write_stream_result x.base.arrow schema batches in
        task_uploaded-ways version is_version staging out refl
          (upload_body x.base staging (piped out) svc) s

    task_versioned-ways :
        (r : Result ℕ × Store) (svc : x.base.s3.Service)
        → ((version : ℕ)
            → r.0 ≡ ok version
            → VersionOf x now later slot again start table.id version)
        → Failed x now later slot again r.1
            (task_versioned x now later slot again t table schema batches r svc)
          ⊎ Done x now later slot again id start
              (task_versioned x now later slot again t table schema batches r svc)
    unfolding task_versioned
    task_versioned-ways (err e, s) svc is_version =
        inl (no_version, refl, (λ h. absurd (cc)), λ table_id id. refl)
    task_versioned-ways (ok version, s) svc is_version =
        task_slot-ways slot version (is_version version refl) (svc, s)

  pub task_read-ways :
      (id : Text) (start : Store) (t : Task) (table : TableState) (schema : x.base.arrow.Schema)
      (answer : Option (List x.base.arrow.Batch)) (w : World x.base)
      → TaskOf id start t
      → TableOf t start table
      → x.base.schema x.base.cfg.source.project_id table.dataset table.table_name ≡ some schema
      → w.1.versions ≡ start.versions
      → x.base.read_table x.base.cfg.source.project_id table.dataset table.table_name ≡ answer
      → Failed x now later slot again w.1 (task_read x now later slot again t table schema answer w)
        ⊎ Done x now later slot again id start
            (task_read x now later slot again t table schema answer w)
  unfolding task_read
  task_read-ways id start t table schema none w is_task is_table fetched same e =
      inl (no_rows, refl, (λ h. absurd (cc)), λ table_id id. refl)
  task_read-ways id start t table schema (some batches) (svc, s) is_task is_table fetched same e =
      let fs : Option (List (Text × Text)) = elim again [
        | none ↦ none
        | some a ↦ some (x.fields_of a)
      ] in
      let r = resolve_schema_version x.schema_codec now.seconds table.id fs s in
      elim (task_versioned-ways id start t is_task table is_table schema fetched batches e r svc
        (λ version resolved. (s, same, resolved))) [
          | inl failed ↦ inl (
              Failed-from x now later slot again s r.1
                (task_versioned x now later slot again t table schema batches r svc)
                (KeepsPaths-of s r.1
                  (resolve_schema_version-partitions x.schema_codec now.seconds table.id fs s))
                failed)
          | inr done ↦ inr done
        ]
