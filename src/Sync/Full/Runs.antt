-- ===== src/Sync/Full/Runs.antt =====
-- What becomes of the run of `SyncTable`.
use bqcubbit.Base.{
  ℕ, Text, Bool, true, false, Option, Option-cases, none, some, List, [], ◌∷◌, ◌≡◌, ◌⊎◌, refl, ap,
  ◌∙◌, inl, inr, ◌==◌, find_where, keep,
}
use bqcubbit.State.{SyncRun, RunState, TableState, TaskState, Task, Result, ok, err}
use bqcubbit.State.Sqlite.{Store}
use bqcubbit.State.Sqlite.Runs.{begin_run}
use bqcubbit.State.Sqlite.Tables.{get_or_create_table}
use bqcubbit.State.Sqlite.Tasks.{
  create_tasks, insert_tasks, claim_task, update_task_state, oldest, is_pending,
}
use bqcubbit.Coordinator.Runs.{run_row, IdsBelowNext, begun}
use bqcubbit.Parquet.{write_stream}
use bqcubbit.Sync.Keys.{Now, table_output_key}
use bqcubbit.Sync.Orchestrator.{Orchestrator, World, piped, upload_pipe}
use bqcubbit.Sync.All.Runs.{begin_run_row, end_run_row}
use bqcubbit.Sync.Table.Runs.{get_or_create_table-runs}
use bqcubbit.Sync.Full.{
  FullError, full_task, full_task_id, full_worker, full_done, full_uploaded, full_claimed,
  full_created, full_read, full_table, full_ended, full_begun, sync_full_table,
}

create_tasks-runs : (now : ℕ) (ts : List Task) (s : Store) → (create_tasks now ts s).1.runs ≡ s.runs
unfolding create_tasks
create_tasks-runs now ts s = elim (Option-cases (insert_tasks now ts s.tasks)) [
  | inl failed' ↦ rw (failed', create_tasks) refl
  | inr (rows, done) ↦ rw (done, create_tasks) refl
]

claim_task-runs : (now : ℕ) (worker : Text) (s : Store) → (claim_task now worker s).1.runs ≡ s.runs
unfolding claim_task
claim_task-runs now worker s = elim (Option-cases (oldest (keep is_pending s.tasks))) [
  | inl nothing ↦ rw (nothing, claim_task) refl
  | inr (t, found) ↦ rw (found, claim_task) refl
]

module _ (o : Orchestrator) (now : Now) (dataset table : Text) where
  open o use {arrow}

  full_done-runs :
      (output : Text) (svc : o.s3.Service) (r : Result (Unit {0}) × Store)
      → (full_done o now dataset table output svc r).1.1.runs ≡ r.1.runs
  unfolding full_done
  full_done-runs output svc (err e, s) = refl
  full_done-runs output svc (ok x, s) = refl

  full_uploaded-runs :
      (t : Task) (output : Text) (r : Bool × o.s3.Service) (s : Store)
      → (full_uploaded o now dataset table t output r s).1.1.runs ≡ s.runs
  unfolding full_uploaded update_task_state
  full_uploaded-runs t output (false, svc) s = refl
  full_uploaded-runs t output (true, svc) s =
      full_done-runs output svc (update_task_state t.id TaskState.completed t.lease_generation s)

  full_claimed-runs :
      (schema : arrow.Schema) (batches : List arrow.Batch) (r : Result Task × Store)
      (svc : o.s3.Service)
      → (full_claimed o now dataset table schema batches r svc).1.1.runs ≡ r.1.runs
  unfolding full_claimed
  full_claimed-runs schema batches (err e, s) svc = refl
  full_claimed-runs schema batches (ok t, s) svc =
      let output =
        table_output_key now o.cfg.destination.prefix o.cfg.source.project_id dataset table in
      full_uploaded-runs t output
        (upload_pipe o output (piped (write_stream arrow schema batches)) svc) s

  full_created-runs :
      (schema : arrow.Schema) (batches : List arrow.Batch) (r : Result (Unit {0}) × Store)
      (svc : o.s3.Service)
      → (full_created o now dataset table schema batches r svc).1.1.runs ≡ r.1.runs
  unfolding full_created
  full_created-runs schema batches (err e, s) svc = refl
  full_created-runs schema batches (ok x, s) svc =
      full_claimed-runs schema batches (claim_task now.seconds full_worker s) svc
      ∙ claim_task-runs now.seconds full_worker s

  full_read-runs :
      (run_id : ℕ) (t : TableState) (schema : Option arrow.Schema)
      (batches : Option (List arrow.Batch)) (w : World o)
      → (full_read o now dataset table run_id t schema batches w).1.1.runs ≡ w.1.runs
  unfolding full_read
  full_read-runs run_id t none batches w = refl
  full_read-runs run_id t (some schema) none w = refl
  full_read-runs run_id t (some schema) (some batches) (svc, s) =
      let ts =
        full_task (full_task_id now o.cfg.source.project_id dataset table) run_id t.id ∷ [] in
      full_created-runs schema batches (create_tasks now.seconds ts s) svc
      ∙ create_tasks-runs now.seconds ts s

  full_table-runs :
      (run_id : ℕ) (r : Result TableState × Store) (svc : o.s3.Service)
      → (full_table o now dataset table run_id r svc).1.1.runs ≡ r.1.runs
  unfolding full_table
  full_table-runs run_id (err e, s) svc = refl
  full_table-runs run_id (ok t, s) svc =
      full_read-runs run_id t (o.schema o.cfg.source.project_id dataset table)
        (o.read_table o.cfg.source.project_id dataset table) (svc, s)

  -- The state of the run, by what is returned.
  abbrev pub Ended : ℕ → Option FullError × World o → Type 0
  Ended id r =
      ((r.0 ≡ none)
        × (run_row id r.1.1
            ≡ some (record (begun now.seconds id) {
              completed_at = some now.seconds;
              state = RunState.completed;
            })))
      ⊎ ((e : FullError) × (r.0 ≡ some e)
          × (run_row id r.1.1
              ≡ some (record (begun now.seconds id) {
                completed_at = some now.seconds;
                state = RunState.failed;
              })))

  full_ended-Ended :
      (id : ℕ) (r : Option FullError × World o)
      → run_row id r.1.1 ≡ some (begun now.seconds id)
      → Ended id (full_ended o now dataset table id r)
  unfolding full_ended
  full_ended-Ended id (none, w) row =
      inl (refl, end_run_row o now id RunState.completed w (begun now.seconds id) refl row)
  full_ended-Ended id (some e, w) row =
      inr (e, refl, end_run_row o now id RunState.failed w (begun now.seconds id) refl row)

  -- Where the ids of all runs were given out before: the run that `SyncTable` begins ends as
  -- completed if it returns nil, and as failed if it returns an error, whichever that is.
  pub sync_full_table-Ended :
      (svc : o.s3.Service) (s : Store)
      → IdsBelowNext s
      → Ended s.next_run (sync_full_table o now dataset table (svc, s))
  unfolding sync_full_table full_begun begin_run
  sync_full_table-Ended svc s h =
      let s' : Store = (begin_run now.seconds s).1 in
      let r = get_or_create_table o.cfg.source.project_id dataset table s' in
      full_ended-Ended s.next_run (full_table o now dataset table s.next_run r svc) (
        ap (λ (rs : List SyncRun). find_where (λ q. q.id == s.next_run) rs)
          (full_table-runs s.next_run r svc
            ∙ ap (λ (rt : List SyncRun × List Task). rt.0)
                (get_or_create_table-runs o.cfg.source.project_id dataset table s'))
        ∙ begin_run_row now.seconds s h)
