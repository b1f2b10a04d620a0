-- ===== src/Scheduler/Examples.antt =====
-- The theorem of the scheduler at a store where the lock is held, under the policy `queue`.
use bqcubbit.Base.{refl, none, str_eq, Text, codes, Bool, true, false, ◌≡◌, ◌≢◌, ◌⊎◌, [], ◌∷◌}
use bqcubbit.State.Sqlite.{Store, init}
use bqcubbit.State.Sqlite.Locks.{Datetime, acquire_job_lock}
use bqcubbit.State.Sqlite.Locks.Laws.{has_lock}
use bqcubbit.Scheduler.{job_lock_name, skipped, lock_failed, run_locked, run_sync}
use bqcubbit.Scheduler.Overlap.{locked, Released, run_sync_exact}

abbrev busy : Store
busy = record init {
  locks = record { lock_name = job_lock_name; acquired_at = 10; ttl_seconds = 7200 } ∷ [];
}

abbrev queue : Text
queue = codes "queue"

abbrev no_cancel : Store → Store
no_cancel s = s

abbrev succeeding : Store → Bool × Store
succeeding s = (true, s)

abbrev no_datetime : Datetime
no_datetime t = none

run_sync_exact_example :
    let r = run_sync no_datetime 20 queue no_cancel false false succeeding busy in
    ((false ≡ true) × (r ≡ (lock_failed, busy)))
    ⊎ (((false ≡ false)
          × (has_lock job_lock_name busy.locks ≡ false)
          × (r ≡ run_locked false succeeding (locked 20 busy))
          × Released false succeeding (locked 20 busy) r)
        ⊎ (((false ≡ false)
              × (has_lock job_lock_name busy.locks ≡ true)
              × (queue ≡ codes "cancel_and_restart")
              × (r ≡ run_locked false succeeding (no_cancel busy))
              × Released false succeeding (no_cancel busy) r)
            ⊎ ((false ≡ false)
                × (has_lock job_lock_name busy.locks ≡ true)
                × (queue ≢ codes "cancel_and_restart")
                × (r ≡ (skipped, busy)))))
run_sync_exact_example =
    run_sync_exact queue no_cancel false succeeding no_datetime 20 false busy (λ t. refl)

-- A firing whose context is done when its run ends keeps the lock, and the next one, long after, is
-- skipped.
abbrev stopped : Store
stopped = (run_sync no_datetime 20 queue no_cancel false true succeeding init).1

blocked_run :
    run_sync no_datetime 900000 queue no_cancel false false succeeding stopped ≡ (skipped, stopped)
unfolding run_sync acquire_job_lock str_eq init
blocked_run = refl
