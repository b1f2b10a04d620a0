-- ===== src/State/Sqlite/Locks.antt =====
-- internal/state/sqlite.go: `AcquireJobLock`, `ReleaseJobLock`.
pub mod Laws
use bqcubbit.Base.{
  ℕ, ◌+◌, Text, str_eq, Bool, true, false, not, ◌&&◌, Option, none, some, List, [], ◌∷◌, ◌++◌, ltb,
  if◌then◌else◌, find_where, keep,
}
use bqcubbit.State.{JobLock, Result, ok, Action}
use bqcubbit.State.Sqlite.{Store}

abbrev pub is_lock : Text → JobLock → Bool
is_lock lock_name l = str_eq l.lock_name lock_name

-- datetime() of SQLite on the text that the driver stores for a time, `none` for NULL. The driver
-- is not code of this repository.
abbrev pub Datetime : Type 0
Datetime = ℕ → Option ℕ

-- datetime(acquired_at, '+' || ttl_seconds || ' seconds') < datetime(?), where NULL is not true.
unfoldable pub is_expired : Datetime → ℕ → JobLock → Bool
is_expired datetime now l = elim (datetime l.acquired_at) [
  | none ↦ false
  | some acquired ↦ elim (datetime now) [
    | none ↦ false
    | some present ↦ ltb (acquired + l.ttl_seconds) present
  ]
]

-- The DELETE of an expired lock of that name.
unfoldable pub delete_expired : Datetime → ℕ → Text → Store → Store
unfolding is_expired
delete_expired datetime now lock_name s = record s {
  locks = keep (λ l. not (is_lock lock_name l && is_expired datetime now l)) s.locks;
}

-- The INSERT OR IGNORE, and whether it added a row.
unfoldable pub insert_lock : ℕ → Text → ℕ → Action Store Bool
insert_lock now lock_name ttl s = elim (find_where (is_lock lock_name) s.locks) [
  | some held ↦ (ok false, s)
  | none ↦ (
    ok true,
    record s {
      locks =
          s.locks ++ record { lock_name = lock_name; acquired_at = now; ttl_seconds = ttl } ∷ [];
    },
  )
]

unfoldable pub acquire_job_lock : Datetime → ℕ → Text → ℕ → Action Store Bool
unfolding delete_expired insert_lock
acquire_job_lock datetime now lock_name ttl s =
    insert_lock now lock_name ttl (delete_expired datetime now lock_name s)

unfoldable pub release_job_lock : Text → Action Store (Unit {0})
release_job_lock lock_name s =
    (ok tt, record s { locks = keep (λ l. not (is_lock lock_name l)) s.locks })
