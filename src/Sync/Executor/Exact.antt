-- ===== src/Sync/Executor/Exact.antt =====
-- `ExecuteTask` as a whole: the task, its table, the look at its partition, and the ways out.
use bqcubbit.Base.{
  ℕ, Text, Bool, Bool-cases, true, false, Option, Option-cases, none, some, [], ◌∷◌, ◌≡◌, ◌≢◌, ◌⊎◌,
  refl, sym, ap, subst, ◌∙◌, inl, inr, find_where, ◌==◌,
}
use bqcubbit.State.{PartitionState, TableState, Task, Result, ok, err}
use bqcubbit.State.Sqlite.{Store}
use bqcubbit.State.Sqlite.Tables.{get_table_by_id, get_or_create_partition}
use bqcubbit.State.Sqlite.Tables.Partitions.{row_path, path_of, get_or_create_partition-some}
use bqcubbit.State.Sqlite.Tasks.{list_tasks_by_state, update_task_state}
use bqcubbit.Sync.Keys.{Now}
use bqcubbit.Sync.Orchestrator.{World}
use bqcubbit.Sync.Export.Skip.{path_exists-store}
use bqcubbit.Sync.Executor.Task.{
  TaskError, no_task, no_table, no_schema, TaskExecutor, task_in, resolve_task, task_read,
  task_checked, partition_found, look_up_partition, task_schema, task_table, task_resolved,
  execute_task, has_partition,
}
use bqcubbit.Sync.Executor.Ways.{KeepsPaths, Done, Failed, Failed-from}
use bqcubbit.Sync.Executor.Found.{
  TaskOf, TableOf, resolve_task-TaskOf, get_table_by_id-TableOf, get_or_create_partition-versions,
}
use bqcubbit.Storage.{object_exists}
use bqcubbit.Sync.Export.{path_exists}
use bqcubbit.Sync.Executor.Steps.{task_read-ways}

module _ (x : TaskExecutor) (now later : Now) (slot : Bool)
    (again : Option x.base.arrow.Schema) where
  -- The task's partition has the path of an export already, the object is there, and nothing but the
  -- task is written.
  abbrev pub Skipped : Text → World x.base → Option TaskError × World x.base → Type 0
  Skipped id w r =
      (r.0 ≡ none)
      × KeepsPaths w.1 r.1.1
      × (t : Task) × (table : TableState) × TaskOf id w.1 t
      × TableOf t w.1 table
      × (path_of table.id t.partition_id w.1 ≢ [])
      × ((object_exists x.base.s3 x.base.client (path_of table.id t.partition_id w.1) w.0).0 ≡ true)

  -- What the look at the partition says, and that it changes no path and no version.
  record Looked (t : Task) (table : TableState) (w : World x.base) (r : Bool × World x.base)
      : Type 0 where
    keeps : KeepsPaths w.1 r.1.1
    versions : r.1.1.versions ≡ w.1.versions
    has_path : r.0 ≡ true → path_of table.id t.partition_id w.1 ≢ []
    is_there :
        r.0 ≡ true
        → (object_exists x.base.s3 x.base.client (path_of table.id t.partition_id w.1) w.0).0 ≡ true

  path_exists_object :
      (path : Text) (w : World x.base)
      → (path_exists x.base now path w).0 ≡ true
      → (object_exists x.base.s3 x.base.client path w.0).0 ≡ true
  unfolding path_exists
  path_exists_object [] w h = absurd (cc)
  path_exists_object (c ∷ cs) (svc, s) h = h

  partition_found-Looked :
      (t : Task) (table : TableState) (svc : x.base.s3.Service) (s : Store)
      → Looked t table
          (svc, s)
          (partition_found x now later slot again svc
            (get_or_create_partition now.seconds table.id t.partition_id s))
  unfolding partition_found
  partition_found-Looked t table svc s =
      let (p, s', found, row, same) =
        get_or_create_partition-some now.seconds table.id t.partition_id s in
      let (kept, path) = path_exists-store x.base now p.last_exported_path (svc, s') in
      let at : path_of table.id t.partition_id s ≡ p.last_exported_path =
        sym (same.1 table.id t.partition_id) ∙ ap row_path row in
      let versions : s'.versions ≡ s.versions =
        ap (λ (r : Result PartitionState × Store). r.1.versions) (sym found)
        ∙ get_or_create_partition-versions now.seconds table.id t.partition_id s in
      rw found (record {
        keeps = subst (λ (u : Store). KeepsPaths s u) (sym kept) same.1;
        versions = ap (λ (u : Store). u.versions) kept ∙ versions;
        has_path = λ h e. path h (sym at ∙ e);
        is_there = λ h.
            subst (λ (q : Text). (object_exists x.base.s3 x.base.client q svc).0 ≡ true) (sym at)
              (path_exists_object p.last_exported_path (svc, s') h);
      })

  look_up_partition-Looked :
      (t : Task) (table : TableState) (w : World x.base)
      → Looked t table w (look_up_partition x now later slot again t table w)
  unfolding look_up_partition
  look_up_partition-Looked t table (svc, s) = elim (Bool-cases (has_partition t)) [
    | inl partitioned ↦ rw partitioned (partition_found-Looked t table svc s)
    | inr whole ↦ rw whole (record {
      keeps = λ table_id id. refl;
      versions = refl;
      has_path = λ h. absurd (cc);
      is_there = λ h. absurd (cc);
    })
  ]

  task_checked-ways :
      (id : Text) (t : Task) (table : TableState) (schema : x.base.arrow.Schema)
      (r : Bool × World x.base) (w : World x.base)
      → TaskOf id w.1 t
      → TableOf t w.1 table
      → x.base.schema x.base.cfg.source.project_id table.dataset table.table_name ≡ some schema
      → Looked t table w r
      → Failed x now later slot again w.1 (task_checked x now later slot again t table schema r)
        ⊎ (Skipped id w (task_checked x now later slot again t table schema r)
            ⊎ Done x now later slot again id w.1
                (task_checked x now later slot again t table schema r))
  unfolding task_checked update_task_state
  task_checked-ways id t table schema (true, (svc, s')) w is_task is_table fetched look =
      inr (
        inl (refl, look.keeps, t, table, is_task, is_table, look.has_path refl, look.is_there refl))
  task_checked-ways id t table schema (false, (svc, s')) w is_task is_table fetched look =
      let answer = x.base.read_table x.base.cfg.source.project_id table.dataset table.table_name in
      elim (task_read-ways x now later slot again id w.1 t table schema answer (svc, s') is_task
        is_table fetched look.versions refl) [
          | inl failed ↦ inl (
              Failed-from x now later slot again w.1 s'
                (task_read x now later slot again t table schema answer (svc, s')) look.keeps
                failed)
          | inr done ↦ inr (inr done)
        ]

  abbrev Ways : Text → World x.base → Option TaskError × World x.base → Type 0
  Ways id w r =
      Failed x now later slot again w.1 r ⊎ (Skipped id w r ⊎ Done x now later slot again id w.1 r)

  task_schema-Ways :
      (id : Text) (t : Task) (table : TableState) (schema : Option x.base.arrow.Schema)
      (w : World x.base)
      → TaskOf id w.1 t
      → TableOf t w.1 table
      → x.base.schema x.base.cfg.source.project_id table.dataset table.table_name ≡ schema
      → Ways id w (task_schema x now later slot again t table schema w)
  unfolding task_schema
  task_schema-Ways id t table none w is_task is_table e =
      inl (no_schema, refl, (λ h. absurd (cc)), λ table_id id. refl)
  task_schema-Ways id t table (some schema) w is_task is_table e =
      task_checked-ways id t table schema (look_up_partition x now later slot again t table w) w
        is_task is_table e (look_up_partition-Looked t table w)

  task_table-Ways :
      (id : Text) (t : Task) (r : Result TableState × Store) (svc : x.base.s3.Service)
      → TaskOf id r.1 t
      → ((table : TableState) → r.0 ≡ ok table → TableOf t r.1 table)
      → Ways id (svc, r.1) (task_table x now later slot again t r svc)
  unfolding task_table
  task_table-Ways id t (err e, s) svc is_task is_table =
      inl (no_table, refl, (λ h. absurd (cc)), λ table_id id. refl)
  task_table-Ways id t (ok table, s) svc is_task is_table =
      task_schema-Ways id t table
        (x.base.schema x.base.cfg.source.project_id table.dataset table.table_name) (svc, s) is_task
        (is_table table refl) refl

  get_table_by_id-same : (table_id : ℕ) (s : Store) → (get_table_by_id table_id s).1 ≡ s
  unfolding get_table_by_id
  get_table_by_id-same table_id s =
      elim (Option-cases (find_where (λ (t : TableState). t.id == table_id) s.tables)) [
        | inl missing ↦ rw (missing, get_table_by_id) refl
        | inr (t, found) ↦ rw (found, get_table_by_id) refl
      ]

  task_resolved-Ways :
      (id : Text) (found : Option Task) (svc : x.base.s3.Service) (s : Store)
      → ((t : Task) → found ≡ some t → TaskOf id s t)
      → Ways id (svc, s) (task_resolved x now later slot again (found, s) svc)
  unfolding task_resolved
  task_resolved-Ways id none svc s is_task =
      inl (no_task, refl, (λ h. absurd (cc)), λ table_id id. refl)
  task_resolved-Ways id (some t) svc s is_task =
      let same = get_table_by_id-same t.table_id s in
      subst
        (λ (u : Store).
          Ways id (svc, u) (task_table x now later slot again t (get_table_by_id t.table_id s) svc))
        same
        (task_table-Ways id t (get_table_by_id t.table_id s) svc
          (subst (λ (u : Store). TaskOf id u t) (sym same) (is_task t refl))
          (λ table e.
            subst (λ (u : Store). TableOf t u table) (sym same)
              (get_table_by_id-TableOf t s table e)))

  -- `ExecuteTask` has three ways out. It returns an error, and the path of no partition has changed.
  -- Or it returns nil because the partition of the task, which is an assigned row of that id, has in
  -- the row of the task's table the path of an export already and the object is there, and changes no
  -- path. Or the table of the task was read and written as Parquet without an error, and the row of
  -- the task's partition of that table has the key of the object, the version that the versions of the
  -- table give, the time, the rows that the writer counted, and as its bytes the bytes that it wrote,
  -- modulo 2^64; then it returns nil, or the error of its last write of the task.
  pub execute_task_exact :
      (id : Text) (svc : x.base.s3.Service) (s : Store)
      → Failed x now later slot again s (execute_task x now later slot again id (svc, s))
        ⊎ (Skipped id (svc, s) (execute_task x now later slot again id (svc, s))
            ⊎ Done x now later slot again id s (execute_task x now later slot again id (svc, s)))
  unfolding execute_task resolve_task task_in list_tasks_by_state
  execute_task_exact id svc s =
      task_resolved-Ways id _ svc s
        (λ t e. resolve_task-TaskOf id s t (unfold resolve_task task_in list_tasks_by_state in e))
