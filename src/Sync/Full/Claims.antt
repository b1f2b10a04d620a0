-- ===== src/Sync/Full/Claims.antt =====
-- Which task `SyncTable` claims.
use mathlib.Core.List.{Memᴰ}
use bqcubbit.Base.{
  ℕ, ◌<◌, ◌≤◌, Text, Option-cases, List, [], ◌∷◌, ◌++◌, ◌≡◌, ◌≢◌, refl, sym, ap, inl, inr, arith,
  mem_left, mem_last, find_where, str_eq, eq_of_str_eq, Bool, Bool-cases, true, false, ◌&&◌, ◌+◌,
  update_where_mem,
}
use bqcubbit.State.{Task, TaskState, pending, Result, ok, err}
use bqcubbit.State.Sqlite.{Store}
use bqcubbit.State.Sqlite.Tasks.{
  new_task, create_tasks, insert_tasks, claim_task, has_id, is_pending, claimed, update_task_state,
  at_generation,
}
use bqcubbit.State.Sqlite.Tasks.Keys.{DistinctIds, create_tasks-DistinctIds, row_unique}
use bqcubbit.State.Sqlite.Tasks.Claim.{
  LeasesEndBefore, IsNext, handed, claim_update, claim_task_exact,
}
use bqcubbit.Sync.Keys.{Now}
use bqcubbit.Sync.Orchestrator.{Orchestrator}
use bqcubbit.Sync.Full.{full_worker, full_done, full_uploaded, full_claimed, full_created}

-- The rows after `CreateTasks` of one new task.
created_rows :
    (now : ℕ) (t : Task) (s : Store)
    → (create_tasks now (t ∷ []) s).0 ≡ ok tt
    → (create_tasks now (t ∷ []) s).1.tasks ≡ s.tasks ++ new_task now t ∷ []
unfolding create_tasks insert_tasks
created_rows now t s e = elim (Option-cases (find_where (has_id t.id) s.tasks)) [
  | inl free ↦ rw (free, create_tasks, insert_tasks) refl
  | inr (u, taken) ↦ absurd (cc (rw (taken, create_tasks, insert_tasks) at e))
]

-- The task that is claimed after a new one was created, where an older one waits: another row.
older_claimed :
    (now : ℕ) (worker : Text) (t u x : Task) (s s' : Store)
    → DistinctIds s'.tasks
    → s'.tasks ≡ s.tasks ++ new_task now t ∷ []
    → Memᴰ u s.tasks
    → u.state ≡ pending
    → u.created_at < now
    → IsNext x s'
    → t.id ≢ x.id
older_claimed now worker t u x s s' d rows m waits older next e =
    let there : Memᴰ u s'.tasks = rw rows (mem_left u s.tasks (new_task now t ∷ []) m) in
    let mine : Memᴰ (new_task now t) s'.tasks = rw rows (mem_last (new_task now t) s.tasks) in
    let le : x.created_at ≤ u.created_at = next.oldest u there waits in
    let x' : x ≡ new_task now t =
      row_unique x (new_task now t) s'.tasks d next.is_row mine (sym e) in
    let at : x.created_at ≡ now = ap (λ (y : Task). y.created_at) x' in omega (arith, le, at, older)

str_eq_of_ne : (a b : Text) → a ≢ b → str_eq a b ≡ false
str_eq_of_ne a b n = elim (Bool-cases (str_eq a b)) [
  | inl same ↦ absurd (n (eq_of_str_eq a b same))
  | inr other ↦ other
]

-- The row of another task is still there after a claim and after a write.
claim_update_mem :
    (now : ℕ) (worker : Text) (x y : Task) (ts : List Task)
    → y.id ≢ x.id
    → Memᴰ y ts
    → Memᴰ y (claim_update now worker x ts)
unfolding claim_update
claim_update_mem now worker x y ts n m =
    rw (str_eq_of_ne y.id x.id n) at
      (update_where_mem (λ v. has_id x.id v && is_pending v) (claimed now worker) ts y m)

update_task_state_mem :
    (id : Text) (state : TaskState) (g : ℕ) (s : Store) (y : Task)
    → y.id ≢ id
    → Memᴰ y s.tasks
    → Memᴰ y (update_task_state id state g s).1.tasks
unfolding update_task_state
update_task_state_mem id state g s y n m = rw (str_eq_of_ne y.id id n) at (
    update_where_mem (at_generation id g)
      (λ t. record t { state = state; lease_generation = g + 1 }) s.tasks y m)

module _ (o : Orchestrator) (now : Now) (dataset table : Text) where
  open o use {arrow}

  full_done_tasks :
      (output : Text) (svc : o.s3.Service) (r : Result (Unit {0}) × Store)
      → (full_done o now dataset table output svc r).1.1.tasks ≡ r.1.tasks
  unfolding full_done
  full_done_tasks output svc (err e, s) = refl
  full_done_tasks output svc (ok x, s) = refl

  full_uploaded_mem :
      (t y : Task) (output : Text) (r : Bool × o.s3.Service) (s : Store)
      → y.id ≢ t.id
      → Memᴰ y s.tasks
      → Memᴰ y (full_uploaded o now dataset table t output r s).1.1.tasks
  unfolding full_uploaded
  full_uploaded_mem t y output (false, svc) s n m =
      update_task_state_mem t.id TaskState.failed t.lease_generation s y n m
  full_uploaded_mem t y output (true, svc) s n m =
      rw
        (full_done_tasks output svc
          (update_task_state t.id TaskState.completed t.lease_generation s))
        (update_task_state_mem t.id TaskState.completed t.lease_generation s y n m)

  full_created_ok :
      (schema : arrow.Schema) (batches : List arrow.Batch) (r : Result (Unit {0}) × Store)
      (svc : o.s3.Service)
      → r.0 ≡ ok tt
      → full_created o now dataset table schema batches r svc
        ≡ full_claimed o now dataset table schema batches
            (claim_task now.seconds full_worker r.1)
            svc
  unfolding full_created
  full_created_ok schema batches (err e, s) svc h = cc
  full_created_ok schema batches (ok x, s) svc h = refl

  -- With distinct ids, and where the other leases of `worker-0` end before a new one would: when
  -- `SyncTable` has created its task and one that was created at an earlier time is pending, then
  -- on every way out the row of its own task is still there as it was created, pending and not
  -- claimed: the task that it claims and finishes is another one.
  pub full_created_leaves_own :
      (schema : arrow.Schema) (batches : List arrow.Batch) (svc : o.s3.Service) (t u : Task)
      (s : Store)
      → DistinctIds s.tasks
      → LeasesEndBefore now.seconds full_worker (create_tasks now.seconds (t ∷ []) s).1
      → (create_tasks now.seconds (t ∷ []) s).0 ≡ ok tt
      → Memᴰ u s.tasks
      → u.state ≡ pending
      → u.created_at < now.seconds
      → Memᴰ
          (new_task now.seconds t)
          (full_created o now dataset table schema batches
            (create_tasks now.seconds (t ∷ []) s)
            svc).1.1.tasks
  unfolding full_claimed
  full_created_leaves_own schema batches svc t u s d h made m waits older =
      let s' : Store = (create_tasks now.seconds (t ∷ []) s).1 in
      let d' : DistinctIds s'.tasks = create_tasks-DistinctIds now.seconds (t ∷ []) s d in
      let rows = created_rows now.seconds t s made in
      let mine : Memᴰ (new_task now.seconds t) s'.tasks =
        rw rows (mem_last (new_task now.seconds t) s.tasks) in
      rw (full_created_ok schema batches (create_tasks now.seconds (t ∷ []) s) svc made)
        (elim (claim_task_exact now.seconds full_worker s' d' h) [
          | inl (idle, same) ↦ rw (same, full_claimed) mine
          | inr (x, next, same) ↦
              let n = older_claimed now.seconds full_worker t u x s s' d' rows m waits older next in
              rw (same, full_claimed)
                (full_uploaded_mem (handed now.seconds full_worker x) (new_task now.seconds t) _ _ _
                  n
                  (claim_update_mem now.seconds full_worker x (new_task now.seconds t) s'.tasks n
                    mine))
        ])
