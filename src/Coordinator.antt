-- ===== src/Coordinator.antt =====
-- internal/coordinator/coordinator.go: one run, over the SQLite store. A call of the store whose
-- context is done returns an error and does nothing, as database/sql does.
pub mod Runs
pub mod Wait
mod Examples
use bqcubbit.Base.{
  ℕ, suc, ◌+◌, Bool, true, false, ◌&&◌, ◌||◌, List, [], ◌∷◌, ◌==◌, leb, if◌then◌else◌, length,
}
use bqcubbit.State.{
  RunState, completed, cancelled, SyncRun, Result, ok, err, database, Action, TaskState, pending,
  assigned, Task,
}
use bqcubbit.State.Sqlite.{Store}
use bqcubbit.State.Sqlite.Runs.{abort_stale_runs, cleanup_stale_tasks, begin_run, complete_run}
use bqcubbit.State.Sqlite.Tasks.{reset_expired_leases, list_tasks_by_state}

abbrev pub with_context {ℓ} : {S A : Type ℓ} → Bool → Action S A → Action S A
with_context done call s = if done then (err database, s) else call s

-- What the pool and the wait leave: whether the caller's context is done, whether `Cancel` was
-- called, and the store.
pub record Outcome : Type 0 where
  pub caller_done : Bool
  pub cancel_called : Bool
  pub store : Store

-- The context of the run is done if its parent is, or if it was cancelled.
abbrev pub run_done : Outcome → Bool
run_done o = o.caller_done || o.cancel_called

pub data RunError : Type 0 where
  already_running begin_failed complete_failed : RunError

pub data RunResult : Type 0 where
  finished : ℕ → RunResult
  failed : ℕ → RunError → RunResult

-- The ids of `AbortStaleRuns` go to `CleanupStaleTasks`, if there are any.
unfoldable pub clean_up : Result (List ℕ) × Store → Store
clean_up (ok [], s) = s
clean_up (ok (i ∷ ids), s) = (cleanup_stale_tasks (i ∷ ids) s).1
clean_up (err e, s) = s

abbrev pub final_run_state : Outcome → RunState
final_run_state o = if o.caller_done then cancelled else completed

unfoldable pub finish_run : ℕ → Result (Unit {0}) × Store → RunResult × Store
finish_run run_id (ok x, s) = (finished run_id, s)
finish_run run_id (err e, s) = (failed run_id complete_failed, s)

-- From `BeginRun` on; `work` is the pool and the wait.
unfoldable pub run_begun :
    ℕ → ℕ → (ℕ → Store → Outcome) → Result SyncRun × Store → RunResult × Store
unfolding finish_run
run_begun now later work (err e, s) = (failed 0 begin_failed, s)
run_begun now later work (ok run, s) =
    let o = work run.id (reset_expired_leases now s).1 in
    finish_run run.id
      (with_context (run_done o) (complete_run later run.id (final_run_state o)) o.store)

-- `RunOnce` of a coordinator, whose `running` is the argument, begun at `now` and completed at
-- `later`, with a context that is not done when it begins. `running` is true during the run and
-- false after it; `currentRun` and `taskPool` are only written.
unfoldable pub run_once : Bool → ℕ → ℕ → (ℕ → Store → Outcome) → Store → RunResult × Store
unfolding clean_up run_begun
run_once true now later work s = (failed 0 already_running, s)
run_once false now later work s =
    run_begun now later work (begin_run now (clean_up (abort_stale_runs now s)))

-- Whether no task waits or is at work.
abbrev pub is_idle : Store → Bool
is_idle s = (pending_count s == 0) && (assigned_count s == 0)
  where
    count : Result (List Task) → ℕ
    count (ok ts) = length ts
    count (err e) = 0

    pending_count : Store → ℕ
    pending_count s = count (list_tasks_by_state pending s).0

    assigned_count : Store → ℕ
    assigned_count s = count (list_tasks_by_state assigned s).0

-- `waitForCompletion` over the stores that its ticks see, with `idleLoops`: whether it has
-- returned.
unfoldable pub wait_for_completion : ℕ → List Store → Bool
wait_for_completion idle_loops [] = false
wait_for_completion idle_loops (s ∷ ticks) = elim (is_idle s) [
  | true ↦ elim (leb 2 (idle_loops + 1)) [
    | true ↦ true
    | false ↦ wait_for_completion (idle_loops + 1) ticks
  ]
  | false ↦ wait_for_completion 0 ticks
]
