-- ===== src/State/Sqlite/Tasks/Steps.antt =====
-- The calls of the store that delete no task, and what they keep: the ids apart, and generations
-- that only rise.
use bqcubbit.Base.{
  ℕ, ◌+◌, ◌≤◌, Text, str_eq, Bool, Bool-cases, Option-cases, true, ◌&&◌, Option, none, some, List,
  [], ◌∷◌, ◌++◌, ◌≡◌, refl, sym, subst, inl, inr, arith, if◌then◌else◌, keep, update_where,
  find_where, find_where-update, find_where-append_some,
}
use bqcubbit.State.{TaskState, Task}
use bqcubbit.State.Sqlite.{Store}
use bqcubbit.State.Sqlite.Tasks.{
  has_id, at_generation, is_pending, is_abandoned, oldest, claimed, new_task, insert_tasks,
  create_tasks, claim_task, update_task_state, renew_lease, reset_expired_leases,
}
use bqcubbit.State.Sqlite.Tasks.Keys.{
  DistinctIds, create_tasks-DistinctIds, claim_task-DistinctIds, update_task_state-DistinctIds,
  renew_lease-DistinctIds, reset_expired_leases-DistinctIds,
}
use bqcubbit.State.Sqlite.Tasks.Lease.{task_row}

-- One call of the store, by any worker at any time, that deletes no task.
pub data TaskStep (s s' : Store) : Type 0 where
  creates : (now : ℕ) (ts : List Task) → s' ≡ (create_tasks now ts s).1 → TaskStep s s'
  claims : (now : ℕ) (worker : Text) → s' ≡ (claim_task now worker s).1 → TaskStep s s'
  updates :
      (id : Text) (state : TaskState) (g : ℕ)
      → s' ≡ (update_task_state id state g s).1
      → TaskStep s s'
  renews : (now : ℕ) (id : Text) (g : ℕ) → s' ≡ (renew_lease now id g s).1 → TaskStep s s'
  resets : (now : ℕ) → s' ≡ (reset_expired_leases now s).1 → TaskStep s s'
  elsewhere : s'.tasks ≡ s.tasks → TaskStep s s'

pub data Reaches (s : Store) : Store → Type 0 where
  here : Reaches s s
  next : {t u : Store} → Reaches s t → TaskStep t u → Reaches s u

-- The task has a row whose generation is at least `g`.
abbrev pub AtLeast : ℕ → Option Task → Type 0
AtLeast g none = ⊥
AtLeast g (some t) = g ≤ t.lease_generation

AtLeast-update :
    (id : Text) (g : ℕ) (p : Task → Bool) (f : Task → Task) (ts : List Task)
    → ((t : Task) → str_eq (f t).id id ≡ str_eq t.id id)
    → ((t : Task) → p t ≡ true → t.lease_generation ≤ (f t).lease_generation)
    → AtLeast g (find_where (has_id id) ts)
    → AtLeast g (find_where (has_id id) (update_where p f ts))
AtLeast-update id g p f ts keeps grows h =
    subst (AtLeast g) (sym (find_where-update (has_id id) p f ts keeps))
      (go (find_where (has_id id) ts) h)
  where
    go :
        (o : Option Task)
        → AtLeast g o
        → AtLeast g (elim o [ none ↦ none | some t ↦ some (if p t then f t else t) ])
    go none h = h
    go (some t) h = elim (Bool-cases (p t)) [
      | inl hit ↦ rw hit (omega (arith, grows t hit))
      | inr miss ↦ rw miss h
    ]

AtLeast-insert :
    (id : Text) (g now : ℕ) (ts rows out : List Task)
    → insert_tasks now ts rows ≡ some out
    → AtLeast g (find_where (has_id id) rows)
    → AtLeast g (find_where (has_id id) out)
unfolding insert_tasks
AtLeast-insert id g now [] rows out e h =
    let same : rows ≡ out = cc in
    subst (λ (x : List Task). AtLeast g (find_where (has_id id) x)) same h
AtLeast-insert id g now (t ∷ ts) rows out e h =
    elim (Option-cases (find_where (has_id t.id) rows)) [
      | inl free ↦
          AtLeast-insert id g now ts (rows ++ new_task now t ∷ []) out
            (rw (free, insert_tasks) at e) (appended (find_where (has_id id) rows) refl h)
      | inr (old, taken) ↦ absurd (cc (rw (taken, insert_tasks) at e))
    ]
  where
    appended :
        (o : Option Task)
        → find_where (has_id id) rows ≡ o
        → AtLeast g o
        → AtLeast g (find_where (has_id id) (rows ++ new_task now t ∷ []))
    appended none e h = absurd h
    appended (some u) e h = rw (find_where-append_some (has_id id) rows (new_task now t ∷ []) u e) h

create_tasks-AtLeast :
    (id : Text) (g now : ℕ) (ts : List Task) (s : Store)
    → AtLeast g (task_row id s)
    → AtLeast g (task_row id (create_tasks now ts s).1)
unfolding create_tasks
create_tasks-AtLeast id g now ts s h = elim (Option-cases (insert_tasks now ts s.tasks)) [
  | inl clash ↦ rw (clash, create_tasks) h
  | inr (rows, done) ↦ rw (done, create_tasks) (AtLeast-insert id g now ts s.tasks rows done h)
]

claim_task-AtLeast :
    (id : Text) (g now : ℕ) (worker : Text) (s : Store)
    → AtLeast g (task_row id s)
    → AtLeast g (task_row id (claim_task now worker s).1)
unfolding claim_task
claim_task-AtLeast id g now worker s h = elim (Option-cases (oldest (keep is_pending s.tasks))) [
  | inl nothing ↦ rw (nothing, claim_task) h
  | inr (t, found) ↦
      rw (found, claim_task)
        (AtLeast-update id g (λ u. has_id t.id u && is_pending u) (claimed now worker) s.tasks
          (λ u. refl) (λ u hit. omega arith) h)
]

step-AtLeast :
    (id : Text) (g : ℕ) (s s' : Store)
    → TaskStep s s'
    → AtLeast g (task_row id s)
    → AtLeast g (task_row id s')
unfolding update_task_state renew_lease reset_expired_leases
step-AtLeast id g s s' (creates now ts e) h =
    subst (λ (x : Store). AtLeast g (task_row id x)) (sym e) (create_tasks-AtLeast id g now ts s h)
step-AtLeast id g s s' (claims now worker e) h =
    subst (λ (x : Store). AtLeast g (task_row id x)) (sym e)
      (claim_task-AtLeast id g now worker s h)
step-AtLeast id g s s' (updates j state k e) h =
    subst (λ (x : Store). AtLeast g (task_row id x)) (sym e)
      (AtLeast-update id g (at_generation j k)
        (λ t. record t { state = state; lease_generation = k + 1 }) s.tasks (λ u. refl)
        (λ u hit. ground arith) h)
step-AtLeast id g s s' (renews now j k e) h =
    subst (λ (x : Store). AtLeast g (task_row id x)) (sym e)
      (AtLeast-update id g (at_generation j k) _ s.tasks (λ u. refl) (λ u hit. omega arith) h)
step-AtLeast id g s s' (resets now e) h =
    subst (λ (x : Store). AtLeast g (task_row id x)) (sym e)
      (AtLeast-update id g (is_abandoned now) _ s.tasks (λ u. refl) (λ u hit. omega arith) h)
step-AtLeast id g s s' (elsewhere e) h =
    subst (λ (x : List Task). AtLeast g (find_where (has_id id) x)) (sym e) h

step-DistinctIds : (s s' : Store) → TaskStep s s' → DistinctIds s.tasks → DistinctIds s'.tasks
step-DistinctIds s s' (creates now ts e) d =
    subst (λ (x : Store). DistinctIds x.tasks) (sym e) (create_tasks-DistinctIds now ts s d)
step-DistinctIds s s' (claims now worker e) d =
    subst (λ (x : Store). DistinctIds x.tasks) (sym e) (claim_task-DistinctIds now worker s d)
step-DistinctIds s s' (updates j state k e) d =
    subst (λ (x : Store). DistinctIds x.tasks) (sym e) (update_task_state-DistinctIds j state k s d)
step-DistinctIds s s' (renews now j k e) d =
    subst (λ (x : Store). DistinctIds x.tasks) (sym e) (renew_lease-DistinctIds now j k s d)
step-DistinctIds s s' (resets now e) d =
    subst (λ (x : Store). DistinctIds x.tasks) (sym e) (reset_expired_leases-DistinctIds now s d)
step-DistinctIds s s' (elsewhere e) d = subst DistinctIds (sym e) d

pub Reaches-DistinctIds : {s s' : Store} → Reaches s s' → DistinctIds s.tasks → DistinctIds s'.tasks
Reaches-DistinctIds here d = d
Reaches-DistinctIds (next r st) d = step-DistinctIds _ _ st (Reaches-DistinctIds r d)

pub Reaches-AtLeast :
    {s s' : Store} (id : Text) (g : ℕ)
    → Reaches s s'
    → AtLeast g (task_row id s)
    → AtLeast g (task_row id s')
Reaches-AtLeast id g here h = h
Reaches-AtLeast id g (next r st) h = step-AtLeast id g _ _ st (Reaches-AtLeast id g r h)
