-- ===== src/Coordinator/Runs.antt =====
-- What becomes of the row of a run.
use bqcubbit.Base.{
  ℕ, ◌<◌, Bool, Bool-cases, true, false, Option, none, some, List, [], ◌∷◌, ◌≡◌, ◌⊎◌, inl, inr,
  refl, ap, ◌∙◌, arith, All, ◌==◌, update_where, find_where, find_where-append, find_where-update,
}
use bqcubbit.State.{running, completed, SyncRun, Result, ok, err}
use bqcubbit.State.Sqlite.{Store}
use bqcubbit.State.Sqlite.Runs.{
  is_stale, abort_stale_runs, cleanup_stale_tasks, begin_run, complete_run,
}
use bqcubbit.State.Sqlite.Tasks.{reset_expired_leases}
use bqcubbit.Coordinator.{
  Outcome, run_done, RunResult, finished, failed, complete_failed, clean_up, final_run_state,
  finish_run, run_begun, run_once, with_context,
}

-- The row of a run.
abbrev pub run_row : ℕ → Store → Option SyncRun
run_row id s = find_where (λ r. r.id == id) s.runs

-- Runs have ids that AUTOINCREMENT has given out.
abbrev pub IdsBelowNext : Store → Type 0
IdsBelowNext s = All (λ r. r.id < s.next_run) s.runs

-- The row that `BeginRun` makes.
abbrev pub begun : ℕ → ℕ → SyncRun
begun now id = record {
  id = id;
  started_at = now;
  completed_at = none;
  state = running;
  total_tasks = 0;
  completed_tasks = 0;
  failed_tasks = 0;
}

pub none_of_below :
    (n : ℕ) (rs : List SyncRun) → All (λ r. r.id < n) rs → find_where (λ r. r.id == n) rs ≡ none
none_of_below n [] h = refl
none_of_below n (r ∷ rs) h = let lt : r.id < n = h.0 in ground (arith, none_of_below n rs h.1)

pub update-below :
    (n : ℕ) (p : SyncRun → Bool) (f : SyncRun → SyncRun) (rs : List SyncRun)
    → ((r : SyncRun) → (f r).id ≡ r.id)
    → All (λ r. r.id < n) rs
    → All (λ r. r.id < n) (update_where p f rs)
update-below n p f [] same h = tt
update-below n p f (r ∷ rs) same h = (ground (arith, same r, h.0), update-below n p f rs same h.1)

clean_up_runs :
    (s : Store) (ids : Result (List ℕ))
    → ((clean_up (ids, s)).runs ≡ s.runs) × ((clean_up (ids, s)).next_run ≡ s.next_run)
unfolding clean_up cleanup_stale_tasks
clean_up_runs s (ok []) = (refl, refl)
clean_up_runs s (ok (i ∷ ids)) = (refl, refl)
clean_up_runs s (err e) = (refl, refl)

-- The store that the pool starts with.
unfoldable pub started : ℕ → Store → Store
started now s = (reset_expired_leases now (begin_run now (clean_up (abort_stale_runs now s))).1).1

started_row :
    (now : ℕ) (s : Store)
    → IdsBelowNext s
    → run_row s.next_run (started now s) ≡ some (begun now s.next_run)
unfolding started abort_stale_runs begin_run reset_expired_leases clean_up cleanup_stale_tasks
started_row now s h =
    let s1 : Store = (abort_stale_runs now s).1 in
    let (same, next) = clean_up_runs s1 (abort_stale_runs now s).0 in
    rw (same, next)
      (find_where-append (λ r. r.id == s.next_run) _ (begun now s.next_run)
        (none_of_below s.next_run _ (update-below s.next_run (is_stale now) _ s.runs (λ r. refl) h))
        (ground arith))

-- The end of the run.
abbrev ending : ℕ → ℕ → Outcome → RunResult × Store
ending later n o =
    finish_run n (with_context (run_done o) (complete_run later n (final_run_state o)) o.store)

run_once_lem :
    (now later : ℕ) (work : ℕ → Store → Outcome) (s : Store)
    → run_once false now later work s ≡ ending later s.next_run (work s.next_run (started now s))
unfolding run_once run_begun begin_run started abort_stale_runs
run_once_lem now later work s =
    ap (λ (n : ℕ). ending later n (work n (started now s)))
      (clean_up_runs (abort_stale_runs now s).1 (abort_stale_runs now s).0).1

completed_row :
    (now later n : ℕ) (s : Store)
    → run_row n s ≡ some (begun now n)
    → run_row n (complete_run later n completed s).1
      ≡ some (record (begun now n) { completed_at = some later; state = completed })
unfolding complete_run
completed_row now later n s e =
    find_where-update (λ r. r.id == n) (λ r. r.id == n) _ s.runs (λ r. refl) ∙ rw e (ground arith)

ending_exact :
    (now later n : ℕ) (o : Outcome)
    → run_row n o.store ≡ some (begun now n)
    → ((run_done o ≡ false)
        × ((ending later n o).0 ≡ finished n)
        × (run_row n (ending later n o).1
            ≡ some (record (begun now n) { completed_at = some later; state = completed })))
      ⊎ ((run_done o ≡ true)
          × ((ending later n o).0 ≡ failed n complete_failed)
          × (run_row n (ending later n o).1 ≡ some (begun now n)))
unfolding finish_run complete_run
ending_exact now later n o e = elim (Bool-cases (run_done o)) [
  | inl done ↦ inr (done, rw (done, finish_run), rw (done, finish_run) e)
  | inr alive ↦
      let quiet : o.caller_done ≡ false = ground arith in
      inl (
        alive,
        rw (alive, finish_run),
        rw (alive, finish_run, quiet) (completed_row now later n o.store e),
      )
]

-- Where the ids of all runs were given out before, and the pool leaves the rows of the runs alone:
-- if the context of a run is still alive at its end, its row becomes completed and its id is
-- returned; if it was cancelled, by the caller or by `Cancel`, the last write fails with the
-- context, so an error is returned and the row stays `running`.
pub run_once_exact :
    (now later : ℕ) (work : ℕ → Store → Outcome) (s : Store)
    → IdsBelowNext s
    → ((n : ℕ) (t : Store) → run_row n (work n t).store ≡ run_row n t)
    → ((run_done (work s.next_run (started now s)) ≡ false)
        × ((run_once false now later work s).0 ≡ finished s.next_run)
        × (run_row s.next_run (run_once false now later work s).1
            ≡ some
                (record (begun now s.next_run) { completed_at = some later; state = completed })))
      ⊎ ((run_done (work s.next_run (started now s)) ≡ true)
          × ((run_once false now later work s).0 ≡ failed s.next_run complete_failed)
          × (run_row s.next_run (run_once false now later work s).1 ≡ some (begun now s.next_run)))
run_once_exact now later work s h keeps = rw (run_once_lem now later work s) (
    ending_exact now later s.next_run (work s.next_run (started now s))
      (keeps s.next_run (started now s) ∙ started_row now s h))
