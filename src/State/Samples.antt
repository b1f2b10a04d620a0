-- ===== src/State/Samples.antt =====
-- A store with two tasks that wait.
use bqcubbit.Base.{ℕ, Text, codes, none, [], ◌∷◌}
use bqcubbit.State.{pending, Task}
use bqcubbit.State.Sqlite.{Store, init}

abbrev pub waiting : Text → ℕ → Task
waiting id created_at = record {
  id = id;
  sync_run_id = 1;
  table_id = 1;
  schema_version = 1;
  partition_id = codes "20240101";
  shard_idx = 0;
  state = pending;
  worker_id = none;
  lease_expires_at = none;
  lease_generation = 0;
  bytes_read = 0;
  bytes_written = 0;
  retry_count = 0;
  last_error = none;
  created_at = created_at;
  completed_at = none;
}

abbrev pub two_tasks : Store
two_tasks = record init { tasks = waiting (codes "a") 9 ∷ waiting (codes "b") 4 ∷ [] }

abbrev pub alice : Text
alice = codes "alice"
