-- ===== src/Coordinator/Examples.antt =====
-- The theorems of the coordinator at a cancelled run on an empty store.
use bqcubbit.Base.{ℕ, true, false, some, [], ◌∷◌, ◌≡◌, ◌↔◌, ◌⊎◌, refl}
use bqcubbit.State.{completed}
use bqcubbit.State.Sqlite.{Store, init}
use bqcubbit.Coordinator.{
  Outcome, run_done, finished, failed, complete_failed, run_once, wait_for_completion,
}
use bqcubbit.Coordinator.Runs.{run_row, begun, started, run_once_exact}
use bqcubbit.Coordinator.Wait.{IdleTwice, wait_for_completion_exact}

-- The caller's context ends during the run.
abbrev interrupted : ℕ → Store → Outcome
interrupted run_id s = record { caller_done = true; cancel_called = false; store = s }

run_once_exact_example :
    ((run_done (interrupted 1 (started 5 init)) ≡ false)
      × ((run_once false 5 9 interrupted init).0 ≡ finished 1)
      × (run_row 1 (run_once false 5 9 interrupted init).1
          ≡ some (record (begun 5 1) { completed_at = some 9; state = completed })))
    ⊎ ((run_done (interrupted 1 (started 5 init)) ≡ true)
        × ((run_once false 5 9 interrupted init).0 ≡ failed 1 complete_failed)
        × (run_row 1 (run_once false 5 9 interrupted init).1 ≡ some (begun 5 1)))
unfolding init
run_once_exact_example = run_once_exact 5 9 interrupted init tt (λ n t. refl)

wait_for_completion_exact_example :
    (wait_for_completion 0 (init ∷ init ∷ []) ≡ true) ↔ IdleTwice (init ∷ init ∷ [])
wait_for_completion_exact_example = wait_for_completion_exact (init ∷ init ∷ [])
