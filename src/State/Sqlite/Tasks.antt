-- ===== src/State/Sqlite/Tasks.antt =====
-- internal/state/sqlite.go: `CreateTasks`, `ClaimTask`, `UpdateTaskState`, `RenewLease`,
-- `ListExpiredLeases`, `ResetExpiredLeases`, `ListTasksByState`.
pub mod Select
pub mod Claim
pub mod Lease
pub mod Steps
pub mod Fence
mod Examples
pub mod Keys
pub mod Expiry
use bqcubbit.Base.{
  ℕ, suc, ◌+◌, Text, str_eq, Bool, true, false, ◌&&◌, Option, none, some, List, [], ◌∷◌, ◌++◌, map,
  ltb, ◌==◌, if◌then◌else◌, keep, update_where, count_where, find_where,
}
use bqcubbit.State.{
  TaskState, pending, assigned, completed, failed, Task, Result, ok, err, no_rows, no_pending_tasks,
  generation_mismatch, unique_violation, Action,
}
use bqcubbit.State.Sqlite.{Store}

abbrev pub same_state : TaskState → TaskState → Bool
same_state pending pending = true
same_state assigned assigned = true
same_state completed completed = true
same_state failed failed = true
same_state _ _ = false

abbrev pub has_id : Text → Task → Bool
has_id id t = str_eq t.id id

-- The row that the INSERT makes of a task: the columns it names, and the defaults.
abbrev pub new_task : ℕ → Task → Task
new_task now t = record t {
  state = pending;
  worker_id = none;
  lease_expires_at = none;
  lease_generation = 0;
  bytes_read = 0;
  bytes_written = 0;
  retry_count = 0;
  last_error = none;
  created_at = now;
  completed_at = none;
}

-- The INSERTs of one transaction: a primary key that is taken ends it.
unfoldable pub insert_tasks : ℕ → List Task → List Task → Option (List Task)
insert_tasks now [] rows = some rows
insert_tasks now (t ∷ ts) rows = elim (find_where (has_id t.id) rows) [
  | some old ↦ none
  | none ↦ insert_tasks now ts (rows ++ new_task now t ∷ [])
]

unfoldable pub create_tasks : ℕ → List Task → Action Store (Unit {0})
unfolding insert_tasks
create_tasks now ts s = elim (insert_tasks now ts s.tasks) [
  | some rows ↦ (ok tt, record s { tasks = rows })
  | none ↦ (err unique_violation, s)
]

-- 30 minutes.
abbrev pub lease_seconds : ℕ
lease_seconds = 1800

-- ORDER BY created_at ASC LIMIT 1
unfoldable pub oldest : List Task → Option Task
oldest [] = none
oldest (t ∷ ts) = elim (oldest ts) [
  | none ↦ some t
  | some u ↦ some (if ltb u.created_at t.created_at then u else t)
]

abbrev pub is_pending : Task → Bool
is_pending t = same_state t.state pending

abbrev pub has_worker : Text → Task → Bool
has_worker worker t = elim t.worker_id [ none ↦ false | some w ↦ str_eq w worker ]

-- worker_id=? AND state='assigned'
abbrev pub is_held_by : Text → Task → Bool
is_held_by worker t = has_worker worker t && same_state t.state assigned

-- NULL sorts before every time.
abbrev pub lease_key : Task → ℕ
lease_key t = elim t.lease_expires_at [ none ↦ 0 | some e ↦ suc e ]

-- ORDER BY lease_expires_at DESC LIMIT 1
unfoldable pub longest_lease : List Task → Option Task
longest_lease [] = none
longest_lease (t ∷ ts) = elim (longest_lease ts) [
  | none ↦ some t
  | some u ↦ some (if ltb (lease_key t) (lease_key u) then u else t)
]

-- The columns that the store selects of a task; the other members keep Go's zero values.
abbrev pub selected : Task → Task
selected t = record t {
  worker_id = none;
  lease_expires_at = none;
  bytes_read = 0;
  bytes_written = 0;
  retry_count = 0;
  last_error = none;
  created_at = 0;
  completed_at = none;
}

-- The row that the UPDATE of `ClaimTask` leaves.
abbrev pub claimed : ℕ → Text → Task → Task
claimed now worker t = record t {
  state = assigned;
  worker_id = some worker;
  lease_expires_at = some (now + lease_seconds);
  lease_generation = t.lease_generation + 1;
}

-- The SELECT after the UPDATE, and the two members that are filled in by hand.
abbrev pub fetch_claimed : ℕ → Text → List Task → Result Task
fetch_claimed now worker rows = elim (longest_lease (keep (is_held_by worker) rows)) [
  | none ↦ err no_rows
  | some t ↦ ok (record (selected t) {
    worker_id = some worker;
    lease_expires_at = some (now + lease_seconds);
  })
]

unfoldable pub claim_task : ℕ → Text → Action Store Task
unfolding oldest longest_lease
claim_task now worker s = elim (oldest (keep is_pending s.tasks)) [
  | none ↦ (err no_pending_tasks, s)
  | some t ↦
      let rows = update_where (λ u. has_id t.id u && is_pending u) (claimed now worker) s.tasks in
      (fetch_claimed now worker rows, record s { tasks = rows })
]

-- id=? AND lease_generation=?
abbrev pub at_generation : Text → ℕ → Task → Bool
at_generation id generation t = has_id id t && (t.lease_generation == generation)

unfoldable pub update_task_state : Text → TaskState → ℕ → Action Store (Unit {0})
update_task_state id state generation s = (
  (if count_where (at_generation id generation) s.tasks == 0
      then err generation_mismatch
      else ok tt),
  record s {
    tasks =
        update_where (at_generation id generation)
          (λ t. record t { state = state; lease_generation = generation + 1 }) s.tasks;
  },
)

unfoldable pub renew_lease : ℕ → Text → ℕ → Action Store Bool
renew_lease now id generation s = (
  ok (ltb 0 (count_where (at_generation id generation) s.tasks)),
  record s {
    tasks =
        update_where (at_generation id generation)
          (λ t. record t {
            lease_expires_at = some (now + lease_seconds);
            lease_generation = t.lease_generation + 1;
          })
          s.tasks;
  },
)

-- lease_expires_at < datetime('now'), which holds of no NULL.
abbrev pub lease_over : ℕ → Task → Bool
lease_over now t = elim t.lease_expires_at [ none ↦ false | some e ↦ ltb e now ]

abbrev pub is_abandoned : ℕ → Task → Bool
is_abandoned now t = same_state t.state assigned && lease_over now t

unfoldable pub list_expired_leases : ℕ → Action Store (List Task)
list_expired_leases now s = (ok (map selected (keep (is_abandoned now) s.tasks)), s)

unfoldable pub reset_expired_leases : ℕ → Action Store ℕ
reset_expired_leases now s = (
  ok (count_where (is_abandoned now) s.tasks),
  record s {
    tasks =
        update_where (is_abandoned now)
          (λ t. record t { state = pending; worker_id = none; lease_expires_at = none }) s.tasks;
  },
)

unfoldable pub list_tasks_by_state : TaskState → Action Store (List Task)
list_tasks_by_state state s = (ok (map selected (keep (λ t. same_state t.state state) s.tasks)), s)
