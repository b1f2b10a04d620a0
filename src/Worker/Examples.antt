-- ===== src/Worker/Examples.antt =====
-- The theorems of the worker over the SQLite store with one task, and of a pool of two.
use bqcubbit.Base.{◌≢◌, ◌⊎◌, false, some, codes, str_eq, true, none, [], ◌∷◌, ◌≡◌, refl}
use bqcubbit.State.{pending, Task}
use bqcubbit.State.Sqlite.{Store, init}
use bqcubbit.State.Sqlite.Tasks.{claim_task}
use bqcubbit.State.Sqlite.Tasks.Steps.{Reaches}
use bqcubbit.Worker.{heartbeat}
use bqcubbit.Worker.Stale.{heartbeat_cancels}
use bqcubbit.Worker.Sqlite.{sqlite_tasks}
use bqcubbit.Worker.Life.{
  Life, Lives, here, next, starts, runs, stops, run_ends, returns, not_started, at_select, in_run,
  returned, new_worker, stop, IsReturning, steps, stop_exact,
}
use bqcubbit.Worker.Pool.{Pool, scale_up}

abbrev only_task : Task
only_task = record {
  id = codes "t";
  sync_run_id = 1;
  table_id = 1;
  schema_version = 1;
  partition_id = codes "20240101";
  shard_idx = 0;
  state = pending;
  worker_id = none;
  lease_expires_at = none;
  lease_generation = 0;
  bytes_read = 0;
  bytes_written = 0;
  retry_count = 0;
  last_error = none;
  created_at = 3;
  completed_at = none;
}

abbrev one_task : Store
one_task = record init { tasks = only_task ∷ [] }

abbrev idle : Store → Store
idle s = s

heartbeat_cancels_example :
    (heartbeat sqlite_tasks
      (codes "t")
      1
      ((600, idle) ∷ (1200, idle) ∷ [])
      (claim_task 0 (codes "worker-0") one_task).1).0
    ≡ true
heartbeat_cancels_example =
    heartbeat_cancels sqlite_tasks (codes "t") 1 600 1200 idle idle []
      (claim_task 0 (codes "worker-0") one_task).1 (unfold claim_task str_eq in (refl, tt))
      Reaches.here

-- A worker that is stopped during a run, and returns after it.
abbrev stopped_in_run : Life
stopped_in_run = record new_worker { stop_closed = true; phase = in_run }

abbrev gone : Life
gone = record new_worker { stop_closed = true; phase = returned }

until_stopped : Lives new_worker stopped_in_run
unfolding stop
until_stopped =
    next
      (next {n = record new_worker { running = true; phase = in_run }}
        (next {n = record new_worker { running = true; phase = at_select }} here
          (steps (starts refl refl)))
        (steps (runs refl refl refl)))
      (stops refl)

until_gone : Lives stopped_in_run gone
until_gone =
    next (next {n = record stopped_in_run { phase = at_select }} here (steps (run_ends refl refl)))
      (steps (returns refl refl refl))

stop_exact_example :
    (stop stopped_in_run ≢ none)
    × ((true ≡ false) ⊎ IsReturning stopped_in_run gone)
    × ((in_run ≢ not_started) ⊎ (stop stopped_in_run ≡ some stopped_in_run))
stop_exact_example = stop_exact stopped_in_run gone until_stopped until_gone

abbrev pair : Pool
pair = record { min_workers = 2; max_workers = 4; workers = 0 ∷ 1 ∷ [] }

scale_up_run : (scale_up 5 pair).workers ≡ 0 ∷ 1 ∷ 2 ∷ 3 ∷ []
unfolding scale_up
scale_up_run = refl
