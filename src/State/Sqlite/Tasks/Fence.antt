-- ===== src/State/Sqlite/Tasks/Fence.antt =====
-- Generations as fences: a generation that a task has passed never writes to it again.
use bqcubbit.Base.{
  ℕ, suc, ◌+◌, ◌<◌, Text, str_eq, Bool, true, false, Option, none, some, ◌≡◌, refl, sym, subst, ◌∙◌,
  arith, if◌then◌else◌, find_where_sound,
}
use bqcubbit.State.{TaskState, Task, Result, ok, err, generation_mismatch}
use bqcubbit.State.Sqlite.{Store}
use bqcubbit.State.Sqlite.Tasks.{has_id, lease_seconds, update_task_state, renew_lease}
use bqcubbit.State.Sqlite.Tasks.Keys.{
  DistinctIds, update_task_state-DistinctIds, renew_lease-DistinctIds,
}
use bqcubbit.State.Sqlite.Tasks.Lease.{
  task_row, holds_at, update_task_state_result, renew_lease_result, task_row-renew_lease,
  task_row-update_task_state,
}
use bqcubbit.State.Sqlite.Tasks.Steps.{Reaches, AtLeast, Reaches-DistinctIds, Reaches-AtLeast}

not_held : (g : ℕ) (o : Option Task) → AtLeast (suc g) o → holds_at g o ≡ false
not_held g none h = absurd h
not_held g (some t) h = ground arith

-- Once a task has passed a generation, then after any further calls that delete no task, a write
-- or a lease renewal that names that generation is refused: `UpdateTaskState` reports a mismatch
-- and `RenewLease` reports false.
pub stale_generation_refused :
    {s s' : Store} (id : Text) (g : ℕ) (t : Task)
    → DistinctIds s.tasks
    → task_row id s ≡ some t
    → g < t.lease_generation
    → Reaches s s'
    → ((state : TaskState) → (update_task_state id state g s').0 ≡ err generation_mismatch)
      × ((now : ℕ) → (renew_lease now id g s').0 ≡ ok false)
stale_generation_refused {s} {s'} id g t d e lt r = (
  λ state. update_task_state_result id g s' d' state ∙ rw stale,
  λ now. renew_lease_result id g s' d' now ∙ rw stale,
)
  where
    d' : DistinctIds s'.tasks
    d' = Reaches-DistinctIds r d

    stale : holds_at g (task_row id s') ≡ false
    stale =
        not_held g (task_row id s')
          (Reaches-AtLeast id (suc g) r (subst (AtLeast (suc g)) (sym e) lt))

ok_true : (b : Bool) → ◌≡◌ {A = Result Bool} (ok b) (ok true) → b ≡ true
ok_true b e = cc

not_err :
    (b : Bool)
    → ◌≡◌ {A = Result (Unit {0})} (if b then ok tt else err generation_mismatch) (ok tt)
    → b ≡ true
not_err true e = refl
not_err false e = absurd (cc)

row_at :
    (g : ℕ) (o : Option Task)
    → holds_at g o ≡ true
    → (t : Task) × (o ≡ some t) × (t.lease_generation ≡ g)
row_at g none h = absurd (cc)
row_at g (some t) h = (t, refl, ground arith)

own_id : (id : Text) (s : Store) (t : Task) → task_row id s ≡ some t → str_eq t.id id ≡ true
own_id id s t e = find_where_sound (has_id id) s.tasks e

-- A call that was accepted at a generation leaves the task at a later one.
renewed_row :
    (now : ℕ) (id : Text) (g : ℕ) (s : Store)
    → DistinctIds s.tasks
    → (renew_lease now id g s).0 ≡ ok true
    → (t : Task) × (task_row id (renew_lease now id g s).1 ≡ some t) × (g < t.lease_generation)
renewed_row now id g s d e =
    let (t, found, at) =
      row_at g (task_row id s) (ok_true _ (sym (renew_lease_result id g s d now) ∙ e)) in
    let own : str_eq t.id id ≡ true = own_id id s t found in
    (
      record t {
        lease_expires_at = some (now + lease_seconds);
        lease_generation = t.lease_generation + 1;
      },
      task_row-renew_lease now id id g s ∙ rw found (ground arith),
      omega arith,
    )

updated_row :
    (id : Text) (state : TaskState) (g : ℕ) (s : Store)
    → DistinctIds s.tasks
    → (update_task_state id state g s).0 ≡ ok tt
    → (t : Task) × (task_row id (update_task_state id state g s).1 ≡ some t)
      × (g < t.lease_generation)
updated_row id state g s d e =
    let (t, found, at) =
      row_at g (task_row id s) (not_err _ (sym (update_task_state_result id g s d state) ∙ e)) in
    let own : str_eq t.id id ≡ true = own_id id s t found in
    (
      record t { state = state; lease_generation = g + 1 },
      task_row-update_task_state id id g state s ∙ rw found (ground arith),
      omega arith,
    )

-- With distinct ids, a renewal moves the task to the next generation, so after it a write or
-- another renewal with the generation of the claim is refused, whatever calls that delete no task
-- lie between.
pub renewal_ends_claim :
    (now : ℕ) (id : Text) (g : ℕ) (s : Store) {s' : Store}
    → DistinctIds s.tasks
    → (renew_lease now id g s).0 ≡ ok true
    → Reaches (renew_lease now id g s).1 s'
    → ((state : TaskState) → (update_task_state id state g s').0 ≡ err generation_mismatch)
      × ((later : ℕ) → (renew_lease later id g s').0 ≡ ok false)
renewal_ends_claim now id g s d e r =
    let (t, found, later) = renewed_row now id g s d e in
    stale_generation_refused id g t (renew_lease-DistinctIds now id g s d) found later r

-- With distinct ids, a write of a task's state that was accepted is the last one at its generation:
-- after it, whatever calls that delete no task lie between, a write or a renewal at that generation
-- is refused.
pub write_ends_claim :
    (id : Text) (state : TaskState) (g : ℕ) (s : Store) {s' : Store}
    → DistinctIds s.tasks
    → (update_task_state id state g s).0 ≡ ok tt
    → Reaches (update_task_state id state g s).1 s'
    → ((again : TaskState) → (update_task_state id again g s').0 ≡ err generation_mismatch)
      × ((later : ℕ) → (renew_lease later id g s').0 ≡ ok false)
write_ends_claim id state g s d e r =
    let (t, found, later) = updated_row id state g s d e in
    stale_generation_refused id g t (update_task_state-DistinctIds id state g s d) found later r
