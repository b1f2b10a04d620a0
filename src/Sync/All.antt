-- ===== src/Sync/All.antt =====
-- internal/sync/sync.go, `SyncAll`.
pub mod Runs
pub mod Split
mod Examples
use bqcubbit.Base.{
  ℕ, Text, Bool, true, false, Option, none, some, List, [], ◌∷◌, ◌==◌, if◌then◌else◌,
}
use bqcubbit.State.{SyncRun, RunState, completed, failed}
use bqcubbit.State as State
use bqcubbit.State.Sqlite.{Store}
use bqcubbit.State.Sqlite.Runs.{begin_run, complete_run}
use bqcubbit.Sync.{PartitionInfo}
use bqcubbit.Sync.Discover.{Query, discover_partitions}
use bqcubbit.Sync.Groups.{group_by_table}
use bqcubbit.Sync.Keys.{Now}
use bqcubbit.Sync.Orchestrator.{Orchestrator, World}
use bqcubbit.Sync.Table.{sync_table}

-- strings.SplitN(s, ".", 2), `none` where it gives one part.
unfoldable pub split_dot : Text → Option (Text × Text)
split_dot [] = none
split_dot (c ∷ cs) = elim (c == 46) [
  | true ↦ some ([], cs)
  | false ↦ elim (split_dot cs) [ none ↦ none | some (a, b) ↦ some (c ∷ a, b) ]
]

pub data SyncAllResult : Type 0 where
  all_synced no_run no_partitions : SyncAllResult

module _ (o : Orchestrator) (now : Now) where
  -- One round of the loop over the tables; the error of `syncTable` is only logged.
  unfoldable pub sync_group : Option (Text × Text) → List PartitionInfo → World o → World o
  sync_group none ps w = w
  sync_group (some (dataset, table)) ps w = (sync_table o now dataset table ps w).1

  unfoldable pub sync_groups : List (Text × List PartitionInfo) → World o → World o
  unfolding sync_group split_dot
  sync_groups [] w = w
  sync_groups ((key, ps) ∷ groups) w = sync_groups groups (sync_group (split_dot key) ps w)

  -- The deferred call, whose error is logged.
  unfoldable pub end_run : ℕ → RunState → World o → World o
  end_run run_id state (svc, s) = (svc, (complete_run now.seconds run_id state s).1)

  -- What follows the discovery; `order` is the order in which Go ranges over the map.
  unfoldable pub after_discovery :
      (List (Text × List PartitionInfo) → List (Text × List PartitionInfo))
      → ℕ
      → Option (List PartitionInfo)
      → World o
      → SyncAllResult × World o
  unfolding sync_groups end_run
  after_discovery order run_id none w = (no_partitions, end_run run_id failed w)
  after_discovery order run_id (some ps) w =
      (all_synced, end_run run_id completed (sync_groups (order (group_by_table ps)) w))

  unfoldable pub sync_run :
      (List (Text × List PartitionInfo) → List (Text × List PartitionInfo))
      → Option (List PartitionInfo)
      → State.Result SyncRun × Store
      → o.s3.Service
      → SyncAllResult × World o
  unfolding after_discovery
  sync_run order discovered (State.err e, s) svc = (no_run, (svc, s))
  sync_run order discovered (State.ok run, s) svc = after_discovery order run.id discovered (svc, s)

  -- What follows the start of the run, on what the discovery gives.
  unfoldable pub sync_discovered :
      (List (Text × List PartitionInfo) → List (Text × List PartitionInfo))
      → Option (List PartitionInfo)
      → World o
      → SyncAllResult × World o
  unfolding sync_run
  sync_discovered order discovered (svc, s) =
      sync_run order discovered (begin_run now.seconds s) svc

  -- `DiscoverPartitions` on the datasets of the configuration, without a watermark; the client of
  -- BigQuery is there or not, and `query` are its answers.
  unfoldable pub discovery : Bool → Query → Option (List PartitionInfo)
  discovery client query =
      discover_partitions client query o.cfg.source.project_id o.cfg.source.location
        o.cfg.sync.datasets none

  -- `SyncAll`
  unfoldable pub sync_all :
      (List (Text × List PartitionInfo) → List (Text × List PartitionInfo))
      → Bool
      → Query
      → World o
      → SyncAllResult × World o
  unfolding sync_discovered discovery
  sync_all order client query w = sync_discovered order (discovery client query) w
