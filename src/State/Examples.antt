-- ===== src/State/Examples.antt =====
-- The theorems of runs, tables, versions and locks at concrete stores.
use mathlib.Core.List.{Memᴰ}
use bqcubbit.Base.{
  List, str_eq, ℕ, Text, codes, true, false, none, some, [], ◌∷◌, ◌≡◌, ◌≢◌, ◌↔◌, refl,
}
use bqcubbit.State.{running, PartitionState, SchemaVersion, SyncRun, ok}
use bqcubbit.State.Sqlite.{Store, init}
use bqcubbit.State.Sqlite.Runs.{is_stale}
use bqcubbit.State.Sqlite.Runs.Laws.{recover, recover_exact}
use bqcubbit.State.Sqlite.Tables.{get_or_create_partition, new_partition, update_partition_sync}
use bqcubbit.State.Sqlite.Tables.Laws.{partition_written_back}
use bqcubbit.State.Sqlite.Locks.{Datetime, acquire_job_lock, release_job_lock}
use bqcubbit.State.Sqlite.Locks.Laws.{
  LockCall, asks, releases, after_calls, has_lock, acquire_exclusive,
}
use bqcubbit.State.Samples.{waiting, two_tasks}

abbrev old_run : SyncRun
old_run = record {
  id = 1;
  started_at = 10;
  completed_at = none;
  state = running;
  total_tasks = 0;
  completed_tasks = 0;
  failed_tasks = 0;
}

abbrev crashed : Store
crashed = record two_tasks { runs = old_run ∷ [] }

recover_exact_example : Memᴰ (waiting (codes "a") 9) (recover 100000 crashed).tasks ↔ (
    Memᴰ (waiting (codes "a") 9) crashed.tasks
    × ((r : SyncRun) → Memᴰ r crashed.runs → is_stale 100000 r ≡ true → r.id ≢ 1))
recover_exact_example = recover_exact 100000 crashed (waiting (codes "a") 9)

abbrev project : Text
project = codes "p"

abbrev dataset : Text
dataset = codes "d"

abbrev table : Text
table = codes "t"

abbrev exported : PartitionState
exported = record (new_partition 7 1 3 (codes "20240101")) {
  row_count = 12;
  last_successful_sync = some 8;
}

partition_written_back_example :
    ((get_or_create_partition 9 3
        (codes "20240101")
        (get_or_create_partition 7 3 (codes "20240101") init).1).0
      ≡ ok (new_partition 7 1 3 (codes "20240101")))
    × ((get_or_create_partition 9 3
          (codes "20240101")
          (update_partition_sync exported
            (get_or_create_partition 7 3 (codes "20240101") init).1).1).0
        ≡ ok exported)
partition_written_back_example =
    partition_written_back 3 (codes "20240101") 7 9 init (new_partition 7 1 3 (codes "20240101"))
      exported (unfold get_or_create_partition init in refl) refl refl refl

abbrev version : ℕ → SchemaVersion
version n = record {
  id = n;
  table_id = 1;
  version = n;
  schema_hash = [];
  schema_json = codes "{}";
  change_type = codes "INITIAL";
  changes_json = codes "[]";
  valid_from = 0;
}

abbrev sync_lock : Text
sync_lock = codes "sync"

-- What the driver and SQLite do.
abbrev no_datetime : Datetime
no_datetime t = none

-- Others ask for the lock and release another one.
abbrev between : List LockCall
between = asks 64 sync_lock 60 ∷ releases (codes "other") ∷ []

abbrev held : Store
held = (acquire_job_lock no_datetime 5 sync_lock 60 init).1

acquire_exclusive_example :
    (has_lock sync_lock init.locks ≡ false)
    × ((acquire_job_lock no_datetime 9000 sync_lock 60 (after_calls no_datetime between held)).0
        ≡ ok false)
    × ((acquire_job_lock no_datetime 9000 sync_lock 60
          (release_job_lock sync_lock (after_calls no_datetime between held)).1).0
        ≡ ok true)
acquire_exclusive_example =
    acquire_exclusive no_datetime 5 sync_lock 60 init between 9000 60 (λ t. refl)
      (unfold acquire_job_lock init in refl) (unfold str_eq in refl)
