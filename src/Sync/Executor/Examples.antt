-- ===== src/Sync/Executor/Examples.antt =====
-- The executor at one assigned task, on the small bucket.
use bqcubbit.Base.{ℕ, codes, none, some, true, [], ◌∷◌, ◌≡◌, ◌⊎◌, refl, All, str_eq}
use bqcubbit.State.{assigned, Result, ok}
use bqcubbit.State.Sqlite.{Store, init}
use bqcubbit.State.Samples.{waiting}
use bqcubbit.State.Sqlite.Tables.{get_table_by_id, get_or_create_partition, update_partition_sync}
use bqcubbit.State.Sqlite.Tasks.{list_tasks_by_state, update_task_state}
use bqcubbit.State.Sqlite.Versions.{get_current_schema_version, record_schema_version}
use bqcubbit.Parquet.{write_stream_result}
use bqcubbit.Storage.{upload_stream, object_exists}
use bqcubbit.Storage.Rename.{rename_object}
use bqcubbit.Storage.Multipart.{upload_multipart}
use bqcubbit.Sync.Keys.{task_staging_key, task_final_key}
use bqcubbit.Sync.Orchestrator.{piped, upload_body}
use bqcubbit.Sync.Export.{path_exists}
use bqcubbit.Sync.Executor.Manifest.{update_manifest}
use bqcubbit.Sync.Samples.{plain_sync, noon, a_table, no_objects}
use bqcubbit.Sync.Executor.Version.{SchemaCodec, resolve_schema_version}
use bqcubbit.Sync.Executor.Sticks.{resolve_all, schema_version_sticks}
use bqcubbit.Sync.Executor.Task.{TaskExecutor, execute_task}
use bqcubbit.Sync.Executor.Ways.{Failed, Done}
use bqcubbit.Sync.Executor.Exact.{Skipped, execute_task_exact}

-- It reads no text as fields.
abbrev blind_schemas : SchemaCodec
blind_schemas = record {
  sha256_hex = λ t. t;
  marshal_fields = λ fs. none;
  unmarshal_fields = λ t. none;
  marshal_changes = λ cs. none;
}

abbrev plain_executor : TaskExecutor
plain_executor = record {
  base = plain_sync;
  schema_codec = blind_schemas;
  fields_of = λ schema. (codes "id", codes "int64") ∷ [];
  read_all = λ content. some content;
  serialize = λ m. some (codes "{}");
}

abbrev one_assigned : Store
one_assigned = record init {
  tables = a_table ∷ [];
  tasks = record (waiting (codes "a") 4) { state = assigned; lease_generation = 1 } ∷ [];
}

execute_run :
    (execute_task plain_executor noon noon true
        (some (8 ∷ []))
        (codes "a")
        (no_objects, one_assigned)).1.0
      (codes "/d/t/schema_version=v1/20240101/part-09000.zstd.parquet")
    ≡ some (8 ∷ 1 ∷ 2 ∷ 0 ∷ [])
unfolding execute_task list_tasks_by_state str_eq get_table_by_id get_or_create_partition init
    path_exists resolve_schema_version get_current_schema_version record_schema_version upload_body
    upload_multipart piped write_stream_result rename_object task_staging_key update_task_state
    update_partition_sync update_manifest upload_stream object_exists task_final_key
execute_run = refl

execute_task_exact_example :
    Failed plain_executor noon noon true (some (8 ∷ [])) one_assigned (
      execute_task plain_executor noon noon true
        (some (8 ∷ []))
        (codes "a")
        (no_objects, one_assigned))
    ⊎ (Skipped plain_executor noon noon true
          (some (8 ∷ []))
          (codes "a")
          (no_objects, one_assigned)
          (execute_task plain_executor noon noon true
            (some (8 ∷ []))
            (codes "a")
            (no_objects, one_assigned))
        ⊎ Done plain_executor noon noon true (some (8 ∷ [])) (codes "a") one_assigned (
            execute_task plain_executor noon noon true
              (some (8 ∷ []))
              (codes "a")
              (no_objects, one_assigned)))
execute_task_exact_example =
    execute_task_exact plain_executor noon noon true (some (8 ∷ [])) (codes "a") no_objects
      one_assigned

schema_version_sticks_example :
    All
      (λ (r : Result ℕ). r ≡ ok 1)
      (resolve_all blind_schemas 9 1
        (some ((codes "id", codes "int64") ∷ []) ∷ none ∷ some [] ∷ [])
        init).0
schema_version_sticks_example =
    schema_version_sticks blind_schemas 9 1
      (some ((codes "id", codes "int64") ∷ []) ∷ none ∷ some [] ∷ []) init refl
      (unfold init in λ u m. elim m [ ])
