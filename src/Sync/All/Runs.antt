-- ===== src/Sync/All/Runs.antt =====
-- What becomes of the run of `SyncAll`.
use bqcubbit.Base.{
  ℕ, Text, Option, none, some, List, [], ◌∷◌, ◌≡◌, refl, ap, ◌∙◌, arith, ◌==◌, find_where,
  find_where-append, find_where-update, Bool, ◌⊎◌, inl, inr, Option-cases,
}
use bqcubbit.State.{SyncRun, RunState, completed, failed, Task}
use bqcubbit.State.Sqlite.{Store}
use bqcubbit.State.Sqlite.Runs.{begin_run, complete_run}
use bqcubbit.Coordinator.Runs.{run_row, IdsBelowNext, begun, none_of_below}
use bqcubbit.Sync.{PartitionInfo}
use bqcubbit.Sync.Discover.{Query}
use bqcubbit.Sync.Groups.{group_by_table}
use bqcubbit.Sync.Keys.{Now}
use bqcubbit.Sync.Orchestrator.{Orchestrator, World}
use bqcubbit.Sync.Table.Runs.{runs_tasks, sync_table-runs}
use bqcubbit.Sync.All.{
  split_dot, all_synced, no_partitions, sync_group, sync_groups, end_run, after_discovery, sync_run,
  sync_discovered, discovery, sync_all,
}

pub begin_run_row :
    (now : ℕ) (s : Store)
    → IdsBelowNext s
    → run_row s.next_run (begin_run now s).1 ≡ some (begun now s.next_run)
unfolding begin_run
begin_run_row now s h =
    find_where-append (λ r. r.id == s.next_run) s.runs (begun now s.next_run)
      (none_of_below s.next_run s.runs h) (ground arith)

module _ (o : Orchestrator) (now : Now) where
  pub end_run_row :
      (id : ℕ) (state : RunState) (w : World o) (r : SyncRun)
      → r.id ≡ id
      → run_row id w.1 ≡ some r
      → run_row id (end_run o now id state w).1
        ≡ some (record r { completed_at = some now.seconds; state = state })
  unfolding end_run complete_run
  end_run_row id state (svc, s) r same e =
      find_where-update (λ q. q.id == id) (λ q. q.id == id) _ s.runs (λ q. refl)
      ∙ rw e (ground arith)

  sync_group-runs :
      (key : Option (Text × Text)) (ps : List PartitionInfo) (w : World o)
      → runs_tasks (sync_group o now key ps w).1 ≡ runs_tasks w.1
  unfolding sync_group
  sync_group-runs none ps w = refl
  sync_group-runs (some (dataset, table)) ps w = sync_table-runs o now dataset table ps w

  sync_groups-runs :
      (groups : List (Text × List PartitionInfo)) (w : World o)
      → runs_tasks (sync_groups o now groups w).1 ≡ runs_tasks w.1
  unfolding sync_groups
  sync_groups-runs [] w = refl
  sync_groups-runs ((key, ps) ∷ groups) w =
      sync_groups-runs groups (sync_group o now (split_dot key) ps w)
      ∙ sync_group-runs (split_dot key) ps w

  sync_discovered_exact :
      (order : List (Text × List PartitionInfo) → List (Text × List PartitionInfo))
      (svc : o.s3.Service) (s : Store)
      → IdsBelowNext s
      → (((sync_discovered o now order none (svc, s)).0 ≡ no_partitions)
          × (run_row s.next_run (sync_discovered o now order none (svc, s)).1.1
              ≡ some (record (begun now.seconds s.next_run) {
                completed_at = some now.seconds;
                state = failed;
              })))
        × ((ps : List PartitionInfo)
            → ((sync_discovered o now order (some ps) (svc, s)).0 ≡ all_synced)
              × (run_row s.next_run (sync_discovered o now order (some ps) (svc, s)).1.1
                  ≡ some (record (begun now.seconds s.next_run) {
                    completed_at = some now.seconds;
                    state = completed;
                  })))
  unfolding sync_discovered sync_run begin_run after_discovery
  sync_discovered_exact order svc s h =
      let w : World o = (svc, (begin_run now.seconds s).1) in
      let row : run_row s.next_run w.1 ≡ some (begun now.seconds s.next_run) =
        begin_run_row now.seconds s h in
      (
        (refl, end_run_row s.next_run failed w (begun now.seconds s.next_run) refl row),
        λ ps. (
          refl,
          end_run_row s.next_run completed (sync_groups o now (order (group_by_table ps)) w)
              (begun now.seconds s.next_run) refl
              (ap (λ (rt : List SyncRun × List Task). find_where (λ r. r.id == s.next_run) rt.0)
                  (sync_groups-runs (order (group_by_table ps)) w)
                ∙ row),
        ),
      )

  -- Where the ids of all runs were given out before: `SyncAll` begins a run. If the discovery of
  -- the partitions fails, it returns that error and the run ends as failed. Otherwise it returns
  -- nil and the run ends as completed, whatever the order of the tables, and whether any of them
  -- could be synced or not.
  pub sync_all_exact :
      (order : List (Text × List PartitionInfo) → List (Text × List PartitionInfo)) (client : Bool)
      (query : Query) (svc : o.s3.Service) (s : Store)
      → IdsBelowNext s
      → ((discovery o now client query ≡ none)
          × ((sync_all o now order client query (svc, s)).0 ≡ no_partitions)
          × (run_row s.next_run (sync_all o now order client query (svc, s)).1.1
              ≡ some (record (begun now.seconds s.next_run) {
                completed_at = some now.seconds;
                state = failed;
              })))
        ⊎ ((ps : List PartitionInfo) × (discovery o now client query ≡ some ps)
            × ((sync_all o now order client query (svc, s)).0 ≡ all_synced)
            × (run_row s.next_run (sync_all o now order client query (svc, s)).1.1
                ≡ some (record (begun now.seconds s.next_run) {
                  completed_at = some now.seconds;
                  state = completed;
                })))
  unfolding sync_all
  sync_all_exact order client query svc s h =
      let (fails, succeeds) = sync_discovered_exact order svc s h in
      elim (Option-cases (discovery o now client query)) [
        | inl none_found ↦ inl (none_found, rw none_found (fails.0), rw none_found (fails.1))
        | inr (ps, found) ↦ inr (ps, found, rw found ((succeeds ps).0), rw found ((succeeds ps).1))
      ]
