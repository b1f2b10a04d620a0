-- ===== src/State/Sqlite/Runs.antt =====
-- internal/state/sqlite.go: `BeginRun`, `CompleteRun`, `AbortStaleRuns`, `CleanupStaleTasks`.
pub mod Laws
use bqcubbit.Base.{
  ℕ, suc, ◌+◌, Bool, true, false, not, ◌&&◌, Option, none, some, List, [], ◌∷◌, ◌++◌, map, ltb,
  ◌==◌, if◌then◌else◌, keep, any, update_where, count_where,
}
use bqcubbit.State.{RunState, running, SyncRun, Task, Result, ok, Action}
use bqcubbit.State.Sqlite.{Store}

abbrev pub is_running : RunState → Bool
is_running running = true
is_running _ = false

unfoldable pub begin_run : ℕ → Action Store SyncRun
begin_run now s = (ok run, record s { runs = s.runs ++ run ∷ []; next_run = suc s.next_run })
  where
    run : SyncRun
    run = record {
      id = s.next_run;
      started_at = now;
      completed_at = none;
      state = running;
      total_tasks = 0;
      completed_tasks = 0;
      failed_tasks = 0;
    }

unfoldable pub complete_run : ℕ → ℕ → RunState → Action Store (Unit {0})
complete_run now run_id state s = (
  ok tt,
  record s {
    runs =
        update_where (λ r. r.id == run_id)
          (λ r. record r { completed_at = some now; state = state }) s.runs;
  },
)

-- 24 hours.
abbrev pub stale_after : ℕ
stale_after = 86400

-- state='running' AND started_at < datetime('now', '-24 hours')
abbrev pub is_stale : ℕ → SyncRun → Bool
is_stale now r = is_running r.state && ltb (r.started_at + stale_after) now

unfoldable pub abort_stale_runs : ℕ → Action Store (List ℕ)
abort_stale_runs now s = (
  ok (map (λ r. r.id) (keep (is_stale now) s.runs)),
  record s {
    runs =
        update_where (is_stale now)
          (λ r. record r { state = RunState.aborted; completed_at = some now }) s.runs;
  },
)

-- sync_run_id IN (…)
abbrev pub in_runs : List ℕ → Task → Bool
in_runs ids t = any (λ i. i == t.sync_run_id) ids

unfoldable pub cleanup_stale_tasks : List ℕ → Action Store ℕ
cleanup_stale_tasks [] s = (ok 0, s)
cleanup_stale_tasks (i ∷ ids) s = (
  ok (count_where (in_runs (i ∷ ids)) s.tasks),
  record s { tasks = keep (λ t. not (in_runs (i ∷ ids) t)) s.tasks },
)
