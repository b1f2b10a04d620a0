-- ===== src/Cmd/Runs.antt =====
-- The run that `sync` begins after its recovery.
use bqcubbit.Base.{ℕ, Text, true, none, some, List, [], ◌∷◌, ◌≡◌, refl, subst, Bool, inl, inr}
use bqcubbit.State.{completed, Result, ok, err}
use bqcubbit.State.Sqlite.{Store}
use bqcubbit.State.Sqlite.Runs.{is_stale, abort_stale_runs, cleanup_stale_tasks}
use bqcubbit.Coordinator.Runs.{run_row, IdsBelowNext, begun, update-below}
use bqcubbit.Sync.{PartitionInfo}
use bqcubbit.Sync.Discover.{Query}
use bqcubbit.Sync.Keys.{Now}
use bqcubbit.Sync.Orchestrator.{Orchestrator, World}
use bqcubbit.Sync.All.{SyncAllResult, all_synced, discovery, sync_all}
use bqcubbit.Sync.All.Runs.{sync_all_exact}
use bqcubbit.Cmd.Sync.{recovered, all_answer, sync_configured, run_sync_command}

recovered_runs :
    (r : Result (List ℕ)) (s : Store)
    → ((recovered (r, s)).runs ≡ s.runs) × ((recovered (r, s)).next_run ≡ s.next_run)
unfolding recovered cleanup_stale_tasks
recovered_runs (err e) s = (refl, refl)
recovered_runs (ok []) s = (refl, refl)
recovered_runs (ok (i ∷ ids)) s = (refl, refl)

recovered-below :
    (now : ℕ) (s : Store)
    → IdsBelowNext s
    → IdsBelowNext (recovered (abort_stale_runs now s))
      × ((recovered (abort_stale_runs now s)).next_run ≡ s.next_run)
unfolding abort_stale_runs
recovered-below now s h =
    let s1 : Store = (abort_stale_runs now s).1 in
    let (runs, next) = recovered_runs (abort_stale_runs now s).0 s1 in
    (rw (runs, next) (update-below s.next_run (is_stale now) _ s.runs (λ r. refl) h), next)

module _ (o : Orchestrator) (now : Now) where
  all_answer_synced :
      (r : SyncAllResult × World o) → r.0 ≡ all_synced → all_answer o now r ≡ (none, r.1)
  unfolding all_answer
  all_answer_synced (SyncAllResult.all_synced, w) e = refl
  all_answer_synced (SyncAllResult.no_run, w) e = cc
  all_answer_synced (SyncAllResult.no_partitions, w) e = cc

  -- `SyncAll` where the partitions could be listed.
  sync_all_found :
      (order : List (Text × List PartitionInfo) → List (Text × List PartitionInfo)) (client : Bool)
      (query : Query) (ps : List PartitionInfo) (svc : o.s3.Service) (s : Store)
      → discovery o now client query ≡ some ps
      → IdsBelowNext s
      → ((sync_all o now order client query (svc, s)).0 ≡ all_synced)
        × (run_row s.next_run (sync_all o now order client query (svc, s)).1.1
            ≡ some (record (begun now.seconds s.next_run) {
              completed_at = some now.seconds;
              state = completed;
            }))
  sync_all_found order client query ps svc s found h =
      elim (sync_all_exact o now order client query svc s h) [
        | inl (fails, _, _) ↦ cc (fails, found)
        | inr (qs, _, answer, row) ↦ (answer, row)
      ]

  configured_all :
      (order : List (Text × List PartitionInfo) → List (Text × List PartitionInfo)) (client : Bool)
      (query : Query) (ps : List PartitionInfo) (svc : o.s3.Service) (s : Store) (n : ℕ)
      → discovery o now client query ≡ some ps
      → IdsBelowNext s
      → s.next_run ≡ n
      → ((sync_configured o now order client query [] (svc, s)).0 ≡ none)
        × (run_row n (sync_configured o now order client query [] (svc, s)).1.1
            ≡ some (record (begun now.seconds n) {
              completed_at = some now.seconds;
              state = completed;
            }))
  unfolding sync_configured
  configured_all order client query ps svc s n found h e =
      let (answer, row) = sync_all_found order client query ps svc s found h in
      rw (all_answer_synced (sync_all o now order client query (svc, s)) answer) (
        refl,
        subst
            (λ (k : ℕ).
              run_row k (sync_all o now order client query (svc, s)).1.1
              ≡ some (record (begun now.seconds k) {
                completed_at = some now.seconds;
                state = completed;
              }))
            e row,
      )

  -- Where everything could be opened, the configuration names no table, the ids of all runs were
  -- given out before and the partitions could be listed: `sync` succeeds, and the run that it
  -- begins after the recovery of stale runs has the next free id and ends as completed, whatever
  -- the goroutine that cleans the bucket up has done before, and whether any table could be synced
  -- or not.
  pub run_sync_command_completes :
      (others : o.s3.Service → o.s3.Service)
      (order : List (Text × List PartitionInfo) → List (Text × List PartitionInfo)) (client : Bool)
      (query : Query) (ps : List PartitionInfo) (svc : o.s3.Service) (s : Store)
      → discovery o now client query ≡ some ps
      → o.cfg.sync.table ≡ []
      → IdsBelowNext s
      → ((run_sync_command o now true true true others order client query (svc, s)).0 ≡ none)
        × (run_row s.next_run
              (run_sync_command o now true true true others order client query (svc, s)).1.1
            ≡ some (record (begun now.seconds s.next_run) {
              completed_at = some now.seconds;
              state = completed;
            }))
  unfolding run_sync_command
  run_sync_command_completes others order client query ps svc s found no_table h =
      let (below, next) = recovered-below now.seconds s h in
      rw (no_table, sync_configured)
        (configured_all order client query ps (others svc)
          (recovered (abort_stale_runs now.seconds s)) s.next_run found below next)
