-- ===== src/Sync/Executor/Found.antt =====
-- The task and the table that `ExecuteTask` finds.
use mathlib.Core.List.{Memᴰ}
use bqcubbit.Base.{
  ℕ, Text, str_eq, eq_of_str_eq, Bool-cases, true, Option-cases, some, List, [], ◌∷◌, ◌≡◌, refl, ap,
  sym, ◌∙◌, inl, inr, arith, find_where, map, keep, ◌==◌,
}
use bqcubbit.State.{TableState, Task, TaskState, assigned, ok}
use bqcubbit.State.Sqlite.{Store}
use bqcubbit.State.Sqlite.Tables.{get_table_by_id, get_or_create_partition, is_partition}
use bqcubbit.State.Sqlite.Tasks.{selected, same_state, list_tasks_by_state}
use bqcubbit.Sync.Executor.Task.{find_task, task_in, resolve_task}

-- An assigned task of the store has that id, and this is what is read of its row.
pub record TaskOf (id : Text) (s : Store) (t : Task) : Type 0 where
  pub row : Task
  pub is_there : Memᴰ row s.tasks
  pub has_id : row.id ≡ id
  pub is_assigned : row.state ≡ assigned
  pub is_read : t ≡ selected row

-- The row of the task's table.
pub record TableOf (t : Task) (s : Store) (table : TableState) : Type 0 where
  pub is_there : Memᴰ table s.tables
  pub has_id : table.id ≡ t.table_id

is_assigned_state : (x : TaskState) → same_state x assigned ≡ true → x ≡ assigned
is_assigned_state TaskState.pending h = cc
is_assigned_state TaskState.assigned h = refl
is_assigned_state TaskState.completed h = cc
is_assigned_state TaskState.failed h = cc

TaskOf-later :
    (id : Text) (u : Task) (s : Store) (t : Task)
    → TaskOf id s t
    → TaskOf id (record s { tasks = u ∷ s.tasks }) t
TaskOf-later id u s t f = record {
  row = f.row;
  is_there = Memᴰ.tail f.is_there;
  has_id = f.has_id;
  is_assigned = f.is_assigned;
  is_read = f.is_read;
}

find_task-TaskOf :
    (id : Text) (ts : List Task) (s : Store) (t : Task)
    → find_task id (map selected (keep (λ (u : Task). same_state u.state assigned) ts)) ≡ some t
    → TaskOf id (record s { tasks = ts }) t
unfolding find_task
find_task-TaskOf id [] s t e = cc
find_task-TaskOf id (u ∷ ts) s t e = elim (Bool-cases (same_state u.state assigned)) [
  | inr other ↦
      TaskOf-later id u (record s { tasks = ts }) t
        (find_task-TaskOf id ts s t (rw (other, find_task) at e))
  | inl mine ↦ elim (Bool-cases (str_eq u.id id)) [
    | inl same ↦ record {
      row = u;
      is_there = Memᴰ.head refl;
      has_id = eq_of_str_eq u.id id same;
      is_assigned = is_assigned_state u.state mine;
      is_read = cc (rw (same, find_task) at (rw (mine, find_task) at e));
    }
    | inr other ↦
        TaskOf-later id u (record s { tasks = ts }) t
          (find_task-TaskOf id ts s t (rw (other, find_task) at (rw (mine, find_task) at e)))
  ]
]

pub resolve_task-TaskOf :
    (id : Text) (s : Store) (t : Task) → (resolve_task id s).0 ≡ some t → TaskOf id s t
unfolding resolve_task task_in list_tasks_by_state
resolve_task-TaskOf id s t e = find_task-TaskOf id s.tasks s t e

find_where_mem :
    (table_id : ℕ) (ts : List TableState) (t : TableState)
    → find_where (λ (u : TableState). u.id == table_id) ts ≡ some t
    → Memᴰ t ts × (t.id ≡ table_id)
find_where_mem table_id [] t e = cc
find_where_mem table_id (u ∷ ts) t e = elim (Bool-cases (u.id == table_id)) [
  | inl same ↦
      let ut : u ≡ t = cc (rw same at e) in
      (Memᴰ.head (sym ut), ap (λ (x : TableState). x.id) (sym ut) ∙ ground arith)
  | inr other ↦ let (m, i) = find_where_mem table_id ts t (rw other at e) in (Memᴰ.tail m, i)
]

pub get_table_by_id-TableOf :
    (t : Task) (s : Store) (table : TableState)
    → (get_table_by_id t.table_id s).0 ≡ ok table
    → TableOf t s table
unfolding get_table_by_id
get_table_by_id-TableOf t s table e =
    elim (Option-cases (find_where (λ (u : TableState). u.id == t.table_id) s.tables)) [
      | inl missing ↦ cc (rw (missing, get_table_by_id) at e)
      | inr (u, found) ↦
          let same : u ≡ table = cc (rw (found, get_table_by_id) at e) in
          let (m, i) = find_where_mem t.table_id s.tables table (found ∙ ap some same) in
          record { is_there = m; has_id = i }
    ]

pub get_or_create_partition-versions :
    (now table_id : ℕ) (id : Text) (s : Store)
    → (get_or_create_partition now table_id id s).1.versions ≡ s.versions
unfolding get_or_create_partition
get_or_create_partition-versions now table_id id s =
    elim (Option-cases (find_where (is_partition table_id id) s.partitions)) [
      | inl missing ↦ rw (missing, get_or_create_partition) refl
      | inr (p, found) ↦ rw (found, get_or_create_partition) refl
    ]
