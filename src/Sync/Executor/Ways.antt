-- ===== src/Sync/Executor/Ways.antt =====
-- The ways out of `ExecuteTask`, by what they do to the rows of the partitions.
use bqcubbit.Base.{
  ℕ, ◌%◌, Text, Bool, Option, none, some, List, ◌≡◌, ◌≢◌, ◌⊎◌, refl, ap, ◌∙◌, inl, inr, length,
  find_where,
}
use bqcubbit.Hash.{int64_values}
use bqcubbit.Parquet.{WriteResult, written, write_stream_result}
use bqcubbit.State.{TableState, PartitionState, Task, Result, ok, err}
use bqcubbit.State.Sqlite.{Store}
use bqcubbit.State.Sqlite.Tables.{is_partition, get_or_create_partition}
use bqcubbit.State.Sqlite.Tables.Laws.{written_partition}
use bqcubbit.State.Sqlite.Tables.Partitions.{
  partition_row, row_path, path_of, get_or_create_partition-some,
}
use bqcubbit.State.Sqlite.Tasks.{update_task_state}
use bqcubbit.Sync.Keys.{Now, task_final_key}
use bqcubbit.Sync.Orchestrator.{World}
use bqcubbit.Sync.Executor.Version.{resolve_schema_version}
use bqcubbit.Sync.Executor.Found.{TaskOf, TableOf}
use bqcubbit.Sync.Executor.Task.{
  TaskError, task_not_updated, TaskExecutor, give_up, task_row_state, write_task_row, task_ended,
}

-- The paths of all partitions are the same.
abbrev pub KeepsPaths : Store → Store → Type 0
KeepsPaths s t = (table_id : ℕ) (id : Text) → path_of table_id id t ≡ path_of table_id id s

pub KeepsPaths-trans : (s t u : Store) → KeepsPaths s t → KeepsPaths t u → KeepsPaths s u
KeepsPaths-trans s t u h k table_id id = k table_id id ∙ h table_id id

-- The partitions are the same, so their paths are.
pub KeepsPaths-of : (s t : Store) → t.partitions ≡ s.partitions → KeepsPaths s t
KeepsPaths-of s t e table_id id =
    ap (λ (ps : List PartitionState). row_path (find_where (is_partition table_id id) ps)) e

module _ (x : TaskExecutor) (now later : Now) (slot : Bool)
    (again : Option x.base.arrow.Schema) where
  -- The schema version of a table that the program uses, from the versions of a store.
  abbrev pub VersionOf : Store → ℕ → ℕ → Type 0
  VersionOf s table_id version =
      (u : Store) × (u.versions ≡ s.versions)
      × ((resolve_schema_version x.schema_codec now.seconds table_id
            (elim again [ none ↦ none | some a ↦ some (x.fields_of a) ]) u).0
          ≡ ok version)

  -- What an execution has done, from a store, that got as far as the row of its partition.
  pub record Done (id : Text) (s : Store) (r : Option TaskError × World x.base) : Type 0 where
    pub task : Task
    pub table : TableState
    pub version : ℕ
    pub schema : x.base.arrow.Schema
    pub batches : List x.base.arrow.Batch
    pub result : WriteResult
    pub row : PartitionState
    pub is_task : TaskOf id s task
    pub is_table : TableOf task s table
    pub is_version : VersionOf s table.id version
    pub was_fetched :
        x.base.schema x.base.cfg.source.project_id table.dataset table.table_name ≡ some schema
    pub was_read :
        x.base.read_table x.base.cfg.source.project_id table.dataset table.table_name ≡ some batches
    pub was_written : (write_stream_result x.base.arrow schema batches).0 ≡ written result
    pub is_row : partition_row table.id task.partition_id r.1.1 ≡ some row
    pub path :
        row.last_exported_path
        ≡ task_final_key later table.dataset table.table_name version task.partition_id
    pub at_version : row.schema_version ≡ version
    pub synced : row.last_successful_sync ≡ some later.seconds
    pub rows : row.row_count ≡ result.row_count
    pub bytes :
        row.bytes_in_cubbit
        ≡ length (write_stream_result x.base.arrow schema batches).1 % int64_values
    pub answer : (r.0 ≡ none) ⊎ (r.0 ≡ some task_not_updated)

  -- An error before that.
  abbrev pub Failed : Store → Option TaskError × World x.base → Type 0
  Failed s r = (e : TaskError) × (r.0 ≡ some e) × (e ≢ task_not_updated) × KeepsPaths s r.1.1

  pub give_up-Failed :
      (e : TaskError) (t : Task) (svc : x.base.s3.Service) (s : Store)
      → e ≢ task_not_updated
      → Failed s (give_up x now later slot again e t (svc, s))
  unfolding give_up update_task_state
  give_up-Failed e t svc s n = (e, refl, n, λ table_id id. refl)

  pub task_ended-answer :
      (svc : x.base.s3.Service) (u : Result (Unit {0}) × Store)
      → (((task_ended x now later slot again svc u).0 ≡ none)
          ⊎ ((task_ended x now later slot again svc u).0 ≡ some task_not_updated))
        × ((task_ended x now later slot again svc u).1.1 ≡ u.1)
  unfolding task_ended
  task_ended-answer svc (err e, s) = (inr refl, refl)
  task_ended-answer svc (ok v, s) = (inl refl, refl)

  pub write_task_row-row :
      (version rows bytes table_id : ℕ) (path id : Text) (s : Store)
      → (row : PartitionState) × (partition_row table_id id (
            write_task_row x now later slot again version rows bytes path
              (get_or_create_partition later.seconds table_id id s))
          ≡ some row)
        × (row.last_exported_path ≡ path)
        × (row.schema_version ≡ version)
        × (row.last_successful_sync ≡ some later.seconds)
        × (row.row_count ≡ rows)
        × (row.bytes_in_cubbit ≡ bytes)
  unfolding write_task_row task_row_state
  write_task_row-row version rows bytes table_id path id s =
      let (p, s', found, row, same) = get_or_create_partition-some later.seconds table_id id s in
      rw found (
        task_row_state x now later slot again version rows bytes path p,
        written_partition table_id id s' p
            (task_row_state x now later slot again version rows bytes path p) row refl refl refl,
        refl,
        refl,
        refl,
        refl,
        refl,
      )

  pub Failed-from :
      (s s' : Store) (r : Option TaskError × World x.base)
      → KeepsPaths s s'
      → Failed s' r
      → Failed s r
  Failed-from s s' r kept (e, answer, n, keeps) =
      (e, answer, n, KeepsPaths-trans s s' r.1.1 kept keeps)
