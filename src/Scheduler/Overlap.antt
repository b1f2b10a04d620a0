-- ===== src/Scheduler/Overlap.antt =====
-- What a firing does while the lock of another is held.
use bqcubbit.Base.{
  [], ◌∷◌, ◌++◌, ℕ, Text, codes, str_eq, str_eq_refl, eq_of_str_eq, Bool, Bool-cases, true, false,
  ◌≡◌, ◌≢◌, ◌⊎◌, inl, inr, refl, sym, ap, subst, ◌∙◌, if◌then◌else◌,
}
use bqcubbit.State.{Result, ok}
use bqcubbit.State.Sqlite.{Store}
use bqcubbit.State.Sqlite.Locks.{Datetime}
use bqcubbit.State.Sqlite.Locks.Laws.{
  AllNull, has_lock, new_lock, acquire_job_lock_lem, release_frees,
}
use bqcubbit.Scheduler.{
  job_lock_name, lock_ttl, Firing, skipped, lock_failed, run_locked, overlapped, after_acquire,
  run_sync,
}

-- What becomes of the lock after a run that began from `u`: it is released, whoever holds it, unless
-- the context is done by then; then the store stays as `RunOnce` left it.
abbrev pub Released : Bool → (Store → Bool × Store) → Store → Firing × Store → Type 0
Released ends_done run_once u r =
    ((ends_done ≡ false) × (has_lock job_lock_name r.1.locks ≡ false))
    ⊎ ((ends_done ≡ true) × (r.1 ≡ (run_once u).1))

run_locked-Released :
    (ends_done : Bool) (run_once : Store → Bool × Store) (u : Store)
    → Released ends_done run_once u (run_locked ends_done run_once u)
unfolding run_locked
run_locked-Released false run_once u = inl (refl, release_frees job_lock_name (run_once u).1)
run_locked-Released true run_once u = inr (refl, refl)

-- The store with the lock of this firing.
abbrev pub locked : ℕ → Store → Store
locked now s = record s { locks = s.locks ++ new_lock now job_lock_name lock_ttl ∷ [] }

module _ (policy : Text) (cancel : Store → Store) (ends_done : Bool)
    (run_once : Store → Bool × Store) where
  overlapped_exact :
      (s : Store)
      → ((policy ≡ codes "cancel_and_restart")
          × (overlapped policy cancel ends_done run_once s
              ≡ run_locked ends_done run_once (cancel s)))
        ⊎ ((policy ≢ codes "cancel_and_restart")
            × (overlapped policy cancel ends_done run_once s ≡ (skipped, s)))
  unfolding overlapped str_eq
  overlapped_exact s = elim (Bool-cases (str_eq policy (codes "cancel_and_restart"))) [
    | inl restart ↦
        let e : policy ≡ codes "cancel_and_restart" =
          eq_of_str_eq policy (codes "cancel_and_restart") restart in
        inl (e, restarts e)
    | inr other ↦ inr (
      (λ e.
          let h : str_eq policy (codes "cancel_and_restart") ≡ true =
            ap (str_eq policy) (sym e) ∙ str_eq_refl policy in
          cc),
      rw other (if_same (str_eq policy (codes "skip")) (skipped, s)),
    )
  ]
    where
      chosen :
          overlapped (codes "cancel_and_restart") cancel ends_done run_once s
          ≡ run_locked ends_done run_once (cancel s)
      chosen = refl

      restarts :
          policy ≡ codes "cancel_and_restart"
          → overlapped policy cancel ends_done run_once s ≡ run_locked ends_done run_once (cancel s)
      restarts e = ap (λ (p : Text). overlapped p cancel ends_done run_once s) e ∙ chosen

      if_same : (b : Bool) (x : Firing × Store) → (if b then x else x) ≡ x
      if_same true x = refl
      if_same false x = refl

  answer :
      (r : Result Bool × Store) (b : Bool) (u : Store)
      → r ≡ (ok b, u)
      → after_acquire policy cancel ends_done run_once r ≡ (
          if b
          then run_locked ends_done run_once u
          else overlapped policy cancel ends_done run_once u)
  unfolding after_acquire
  answer r true u e = rw e refl
  answer r false u e = rw e refl

  -- Where datetime() is NULL on every time that the driver stores: a firing whose context is done
  -- fails and does nothing. Otherwise it runs the coordinator where no lock of the job is there, which
  -- it adds, and also where one is there under the policy `cancel_and_restart`, after a cancel; then
  -- it releases the lock, whoever held it, but a release with a context that is done by then does
  -- nothing. Under any other policy, `queue` among them, a firing that finds a lock is skipped,
  -- however old the lock is.
  pub run_sync_exact :
      (datetime : Datetime) (now : ℕ) (starts_done : Bool) (s : Store)
      → AllNull datetime
      → let r = run_sync datetime now policy cancel starts_done ends_done run_once s in
        ((starts_done ≡ true) × (r ≡ (lock_failed, s)))
        ⊎ (((starts_done ≡ false)
              × (has_lock job_lock_name s.locks ≡ false)
              × (r ≡ run_locked ends_done run_once (locked now s))
              × Released ends_done run_once (locked now s) r)
            ⊎ (((starts_done ≡ false)
                  × (has_lock job_lock_name s.locks ≡ true)
                  × (policy ≡ codes "cancel_and_restart")
                  × (r ≡ run_locked ends_done run_once (cancel s))
                  × Released ends_done run_once (cancel s) r)
                ⊎ ((starts_done ≡ false)
                    × (has_lock job_lock_name s.locks ≡ true)
                    × (policy ≢ codes "cancel_and_restart")
                    × (r ≡ (skipped, s)))))
  unfolding run_sync after_acquire
  run_sync_exact datetime now true s null = inl (refl, refl)
  run_sync_exact datetime now false s null =
      elim (acquire_job_lock_lem datetime null now job_lock_name lock_ttl s) [
        | inr (absent, added) ↦
            let e = answer _ true (locked now s) added in
            inr (inl (refl, absent, e, released (locked now s) e))
        | inl (there, same) ↦
            let e = answer _ false s same in
            elim (overlapped_exact s) [
              | inl (restart, runs) ↦
                  inr (inr (inl (refl, there, restart, e ∙ runs, released (cancel s) (e ∙ runs))))
              | inr (other, skips) ↦ inr (inr (inr (refl, there, other, e ∙ skips)))
            ]
      ]
    where
      released :
          {r : Firing × Store} (u : Store)
          → r ≡ run_locked ends_done run_once u
          → Released ends_done run_once u r
      released u e =
          subst (Released ends_done run_once u) (sym e) (run_locked-Released ends_done run_once u)
