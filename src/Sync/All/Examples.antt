-- ===== src/Sync/All/Examples.antt =====
-- A synchronisation of all tables, from nothing.
use bqcubbit.Base.{Text, none, some, List, ◌≡◌, ◌⊎◌, true}
use bqcubbit.State.{completed, failed}
use bqcubbit.State.Sqlite.{init}
use bqcubbit.Coordinator.Runs.{run_row, begun}
use bqcubbit.Sync.{PartitionInfo}
use bqcubbit.Sync.Discover.{Query}
use bqcubbit.Sync.Samples.{plain_sync, noon, no_objects}
use bqcubbit.Sync.All.{discovery, sync_all, all_synced, no_partitions}
use bqcubbit.Sync.All.Runs.{sync_all_exact}

abbrev as_listed : List (Text × List PartitionInfo) → List (Text × List PartitionInfo)
as_listed groups = groups

-- No query is answered.
abbrev no_answer : Query
no_answer q location watermark = none

sync_all_exact_example :
    ((discovery plain_sync noon true no_answer ≡ none)
      × ((sync_all plain_sync noon as_listed true no_answer (no_objects, init)).0 ≡ no_partitions)
      × (run_row 1 (sync_all plain_sync noon as_listed true no_answer (no_objects, init)).1.1
          ≡ some (record (begun 9 1) { completed_at = some 9; state = failed })))
    ⊎ ((ps : List PartitionInfo) × (discovery plain_sync noon true no_answer ≡ some ps)
        × ((sync_all plain_sync noon as_listed true no_answer (no_objects, init)).0 ≡ all_synced)
        × (run_row 1 (sync_all plain_sync noon as_listed true no_answer (no_objects, init)).1.1
            ≡ some (record (begun 9 1) { completed_at = some 9; state = completed })))
unfolding init
sync_all_exact_example = sync_all_exact plain_sync noon as_listed true no_answer no_objects init tt
