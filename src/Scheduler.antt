-- ===== src/Scheduler.antt =====
-- internal/scheduler/scheduler.go, `runSync`: what one firing of the cron job does. The coordinator
-- is a parameter: `RunOnce`, which answers whether it succeeded, and `Cancel`.
pub mod Overlap
mod Examples
use bqcubbit.Base.{ℕ, Text, codes, str_eq, Bool, true, false, if◌then◌else◌}
use bqcubbit.State.{Result, ok, err}
use bqcubbit.State.Sqlite.{Store}
use bqcubbit.Coordinator.{with_context}
use bqcubbit.State.Sqlite.Locks.{Datetime, acquire_job_lock, release_job_lock}

abbrev pub job_lock_name : Text
job_lock_name = codes "bqcubbit-sync-run"

-- 2 hours.
abbrev pub lock_ttl : ℕ
lock_ttl = 7200

-- What a firing came to: it skipped, it ran with this success, or the lock could not be asked for.
pub data Firing : Type 0 where
  skipped : Firing
  ran : Bool → Firing
  lock_failed : Firing

-- `RunOnce`, and the deferred release of the lock, whose error is dropped; `ends_done` is whether the
-- context is done by then.
unfoldable pub run_locked : Bool → (Store → Bool × Store) → Store → Firing × Store
run_locked ends_done run_once s =
    let (succeeded, s') = run_once s in
    (ran succeeded, (with_context ends_done (release_job_lock job_lock_name) s').1)

-- The `switch` on the policy where the lock was not acquired.
unfoldable pub overlapped :
    Text → (Store → Store) → Bool → (Store → Bool × Store) → Store → Firing × Store
unfolding run_locked
overlapped policy cancel ends_done run_once s =
    if str_eq policy (codes "skip")
    then (skipped, s)
    else if str_eq policy (codes "cancel_and_restart")
    then run_locked ends_done run_once (cancel s)
    else (skipped, s)

unfoldable pub after_acquire :
    Text → (Store → Store) → Bool → (Store → Bool × Store) → Result Bool × Store → Firing × Store
unfolding run_locked overlapped
after_acquire policy cancel ends_done run_once (ok true, s) = run_locked ends_done run_once s
after_acquire policy cancel ends_done run_once (ok false, s) =
    overlapped policy cancel ends_done run_once s
after_acquire policy cancel ends_done run_once (err e, s) = (lock_failed, s)

-- `runSync`; `starts_done` is whether the context is done when the lock is asked for.
unfoldable pub run_sync :
    Datetime
    → ℕ
    → Text
    → (Store → Store)
    → Bool
    → Bool
    → (Store → Bool × Store)
    → Store
    → Firing × Store
unfolding after_acquire
run_sync datetime now policy cancel starts_done ends_done run_once s =
    after_acquire policy cancel ends_done run_once
      (with_context starts_done (acquire_job_lock datetime now job_lock_name lock_ttl) s)
