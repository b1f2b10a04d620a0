-- ===== src/Cmd/Sync.antt =====
-- cmd/bqcubbit/main.go: `runSync`.
use bqcubbit.Base.{
  ℕ, Text, Bool, true, false, Option, none, some, List, [], ◌∷◌, ℤ, pos, negsuc, ◌==◌,
  if◌then◌else◌,
}
use bqcubbit.Config.{Config, is_empty}
use bqcubbit.Parquet.{WriterConfig, default_writer_config}
use bqcubbit.State as State
use bqcubbit.State.Sqlite.{Store}
use bqcubbit.State.Sqlite.Runs.{abort_stale_runs, cleanup_stale_tasks}
use bqcubbit.Sync.{PartitionInfo}
use bqcubbit.Sync.Discover.{Query}
use bqcubbit.Sync.Keys.{Now}
use bqcubbit.Sync.Orchestrator.{Orchestrator, World}
use bqcubbit.Sync.All.{split_dot, SyncAllResult, sync_all}
use bqcubbit.Sync.Full.{FullError, sync_full_table}

pub data SyncCommandError : Type 0 where
  no_state no_reader no_storage bad_table_format : SyncCommandError
  table_failed : FullError → SyncCommandError
  all_failed : SyncAllResult → SyncCommandError

-- The recovery before a run.
unfoldable pub recovered : State.Result (List ℕ) × Store → Store
recovered (State.err e, s) = s
recovered (State.ok [], s) = s
recovered (State.ok (i ∷ ids), s) = (cleanup_stale_tasks (i ∷ ids) s).1

abbrev pub is_zero_int : ℤ → Bool
is_zero_int (pos n) = n == 0
is_zero_int (negsuc n) = false

-- `pqWriterCfg`
unfoldable pub writer_config : Config → WriterConfig
writer_config cfg =
    let base = default_writer_config in
    record base {
      compression =
          (if is_empty cfg.destination.compression
            then base.compression
            else cfg.destination.compression);
      compression_level =
          (if is_zero_int cfg.destination.compression_level
            then base.compression_level
            else cfg.destination.compression_level);
    }

module _ (o : Orchestrator) (now : Now) where
  unfoldable pub table_answer : Option FullError × World o → Option SyncCommandError × World o
  table_answer (none, w) = (none, w)
  table_answer (some e, w) = (some (table_failed e), w)

  unfoldable pub all_answer : SyncAllResult × World o → Option SyncCommandError × World o
  all_answer (SyncAllResult.all_synced, w) = (none, w)
  all_answer (e, w) = (some (all_failed e), w)

  unfoldable pub sync_named : Option (Text × Text) → World o → Option SyncCommandError × World o
  unfolding table_answer
  sync_named none w = (some bad_table_format, w)
  sync_named (some (dataset, table)) w = table_answer (sync_full_table o now dataset table w)

  -- What follows the clients: `others` is what the goroutine that cleans the bucket up has done by
  -- then, `order`, `client` and `query` are as for `SyncAll`.
  unfoldable pub sync_configured :
      (List (Text × List PartitionInfo) → List (Text × List PartitionInfo))
      → Bool
      → Query
      → Text
      → World o
      → Option SyncCommandError × World o
  unfolding sync_named all_answer
  sync_configured order client query [] w = all_answer (sync_all o now order client query w)
  sync_configured order client query (c ∷ cs) w = sync_named (split_dot (c ∷ cs)) w

  -- `runSync`, on whether the database, the reader and the client of the bucket could be opened.
  unfoldable pub run_sync_command :
      Bool
      → Bool
      → Bool
      → (o.s3.Service → o.s3.Service)
      → (List (Text × List PartitionInfo) → List (Text × List PartitionInfo))
      → Bool
      → Query
      → World o
      → Option SyncCommandError × World o
  unfolding sync_configured recovered
  run_sync_command false reader storage others order client query w = (some no_state, w)
  run_sync_command true false storage others order client query (svc, s) =
      (some no_reader, (svc, recovered (abort_stale_runs now.seconds s)))
  run_sync_command true true false others order client query (svc, s) =
      (some no_storage, (svc, recovered (abort_stale_runs now.seconds s)))
  run_sync_command true true true others order client query (svc, s) =
      sync_configured order client query o.cfg.sync.table
        (others svc, recovered (abort_stale_runs now.seconds s))
