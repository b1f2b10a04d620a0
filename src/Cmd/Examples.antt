-- ===== src/Cmd/Examples.antt =====
-- Commands on an empty database.
use bqcubbit.Base.{Text, codes, true, none, some, List, [], ◌∷◌, ◌≡◌, ◌≢◌, refl, str_eq}
use bqcubbit.Config
use bqcubbit.Config.{loaded}
use bqcubbit.State.{completed}
use bqcubbit.State.Sqlite.{init}
use bqcubbit.Coordinator.Runs.{run_row, begun}
use bqcubbit.Sync.{PartitionInfo}
use bqcubbit.Sync.Discover.{Query, discover_partitions, info_of}
use bqcubbit.Sync.All.{discovery}
use bqcubbit.Sync.Samples.{dataset_sync, listed, noon, no_objects, new_year}
use bqcubbit.Cmd.{main, no_table_given}
use bqcubbit.Cmd.Sync.{run_sync_command}
use bqcubbit.Cmd.Runs.{run_sync_command_completes}
use bqcubbit.Cmd.Ack.{run_ack_schema_change, run_ack_schema_change_fails}

no_table_named :
    main (λ c cfg. true) (loaded Config.default) (codes "ack-schema-change" ∷ []) ≡ no_table_given
unfolding main str_eq
no_table_named = refl

run_ack_schema_change_fails_example :
    (run_ack_schema_change true (codes "p") (codes "d.t") init).0 ≢ none
run_ack_schema_change_fails_example =
    run_ack_schema_change_fails true (codes "p") (codes "d.t") init

abbrev as_listed : List (Text × List PartitionInfo) → List (Text × List PartitionInfo)
as_listed groups = groups

-- A dataset of one partition.
abbrev one_partition : Query
one_partition q location watermark = some (some listed ∷ [])

run_sync_command_completes_example :
    ((run_sync_command dataset_sync noon true true true
        (λ s. s)
        as_listed
        true
        one_partition
        (no_objects, init)).0
      ≡ none)
    × (run_row 1
          (run_sync_command dataset_sync noon true true true
            (λ s. s)
            as_listed
            true
            one_partition
            (no_objects, init)).1.1
        ≡ some (record (begun 9 1) { completed_at = some 9; state = completed }))
unfolding init discovery discover_partitions info_of
run_sync_command_completes_example =
    run_sync_command_completes dataset_sync noon (λ s. s) as_listed true one_partition
      (new_year ∷ []) no_objects init refl refl tt
