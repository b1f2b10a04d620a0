-- ===== src/State/Sqlite/Tasks/Lease.antt =====
-- The optimistic lock of `UpdateTaskState` and `RenewLease`.
use bqcubbit.Base.{
  ℕ, ◌+◌, Text, str_eq, eq_of_str_eq, Bool, Bool-cases, Option-cases, true, false, Option, none,
  some, List, [], ◌∷◌, ◌≡◌, ◌≢◌, ◌⊎◌, refl, ap, ap₂, subst, ◌∙◌, inl, inr, arith, ◌==◌,
  if◌then◌else◌, update_where, find_where, find_where-update, find_where_sound, count_where,
  count_where_zero_of_none, update_where_of_none,
}
use bqcubbit.State.{TaskState, Task, Result, ok, err, generation_mismatch}
use bqcubbit.State.Sqlite.{Store}
use bqcubbit.State.Sqlite.Tasks.{
  has_id, at_generation, update_task_state, renew_lease, lease_seconds,
}
use bqcubbit.State.Sqlite.Tasks.Keys.{DistinctIds, same_id}

-- The row of a task.
abbrev pub task_row : Text → Store → Option Task
task_row id s = find_where (has_id id) s.tasks

-- The row of a task, if it stands at this generation.
abbrev pub holds_at : ℕ → Option Task → Bool
holds_at g none = false
holds_at g (some t) = t.lease_generation == g

none_at :
    (id : Text) (g : ℕ) (ts : List Task)
    → find_where (has_id id) ts ≡ none
    → find_where (at_generation id g) ts ≡ none
none_at id g [] e = refl
none_at id g (t ∷ ts) e = ground (arith, none_at id g ts)

no_other_row :
    (t : Task) (id : Text) (ts : List Task)
    → str_eq t.id id ≡ true
    → find_where (same_id t) ts ≡ none
    → find_where (has_id id) ts ≡ none
no_other_row t id ts h e =
    subst (λ (k : Text). find_where (has_id k) ts ≡ none) (eq_of_str_eq t.id id h) e

count_at :
    (id : Text) (g : ℕ) (ts : List Task)
    → DistinctIds ts
    → count_where (at_generation id g) ts
      ≡ (if holds_at g (find_where (has_id id) ts) then 1 else 0)
count_at id g [] d = refl
count_at id g (t ∷ ts) d = elim (Bool-cases (str_eq t.id id)) [
  | inl own ↦
      let zero' : count_where (at_generation id g) ts ≡ 0 =
        count_where_zero_of_none (at_generation id g) ts
          (none_at id g ts (no_other_row t id ts own d.0)) in
      ground arith
  | inr other ↦ ground (arith, count_at id g ts d.1)
]

module _ (id : Text) (g : ℕ) (s : Store) (distinct : DistinctIds s.tasks) where
  -- `UpdateTaskState` succeeds exactly when the task's row stands at the given generation.
  pub update_task_state_result :
      (state : TaskState)
      → (update_task_state id state g s).0
        ≡ (if holds_at g (task_row id s) then ok tt else err generation_mismatch)
  unfolding update_task_state
  update_task_state_result state = ground (arith, count_at id g s.tasks distinct)

  pub renew_lease_result : (now : ℕ) → (renew_lease now id g s).0 ≡ ok (holds_at g (task_row id s))
  unfolding renew_lease
  renew_lease_result now = ground (arith, count_at id g s.tasks distinct)

-- The row of any task after the two operations.
pub task_row-update_task_state :
    (id j : Text) (g : ℕ) (state : TaskState) (s : Store)
    → task_row j (update_task_state id state g s).1 ≡ (elim (task_row j s) [
      | none ↦ none
      | some t ↦
          some (
            if at_generation id g t
            then record t { state = state; lease_generation = g + 1 }
            else t)
    ])
unfolding update_task_state
task_row-update_task_state id j g state s =
    find_where-update (has_id j) (at_generation id g)
      (λ t. record t { state = state; lease_generation = g + 1 }) s.tasks (λ t. refl)

pub task_row-renew_lease :
    (now : ℕ) (id j : Text) (g : ℕ) (s : Store)
    → task_row j (renew_lease now id g s).1 ≡ (elim (task_row j s) [
      | none ↦ none
      | some t ↦ some (
          if at_generation id g t
          then record t {
            lease_expires_at = some (now + lease_seconds);
            lease_generation = t.lease_generation + 1;
          }
          else t)
    ])
unfolding renew_lease
task_row-renew_lease now id j g s =
    find_where-update (has_id j) (at_generation id g) _ s.tasks (λ t. refl)

none_of_count : (p : Task → Bool) (ts : List Task) → count_where p ts ≡ 0 → find_where p ts ≡ none
none_of_count p [] e = refl
none_of_count p (t ∷ ts) e = ground (arith, none_of_count p ts)

untouched :
    (id : Text) (g : ℕ) (f : Task → Task) (ts : List Task)
    → DistinctIds ts
    → holds_at g (find_where (has_id id) ts) ≡ false
    → update_where (at_generation id g) f ts ≡ ts
untouched id g f ts d h =
    update_where_of_none (at_generation id g) f ts
      (none_of_count (at_generation id g) ts (count_at id g ts d ∙ rw h))

-- With distinct ids, `UpdateTaskState` either finds the task at the given generation, then it
-- succeeds, writes the state and raises the generation by one, and leaves the rows of all other
-- tasks alone; or it does not, then it fails with a generation mismatch and changes nothing.
pub update_task_state_exact :
    (id : Text) (state : TaskState) (g : ℕ) (s : Store)
    → DistinctIds s.tasks
    → ((t : Task) × (task_row id s ≡ some t)
        × (t.lease_generation ≡ g)
        × ((update_task_state id state g s).0 ≡ ok tt)
        × (task_row id (update_task_state id state g s).1
            ≡ some (record t { state = state; lease_generation = g + 1 }))
        × ((j : Text) → j ≢ id → task_row j (update_task_state id state g s).1 ≡ task_row j s))
      ⊎ ((holds_at g (task_row id s) ≡ false)
          × (update_task_state id state g s ≡ (err generation_mismatch, s)))
update_task_state_exact id state g s d = go (task_row id s) refl
  where
    others : (j : Text) → j ≢ id → task_row j (update_task_state id state g s).1 ≡ task_row j s
    others j ne = elim (Option-cases (task_row j s)) [
      | inl e ↦ rw (task_row-update_task_state id j g state s, e)
      | inr (t, e) ↦
          rw (task_row-update_task_state id j g state s, e)
            (ground (
              arith,
              find_where_sound (has_id j) s.tasks e,
              eq_of_str_eq t.id j,
              eq_of_str_eq t.id id,
            ))
    ]

    missed :
        holds_at g (task_row id s) ≡ false
        → update_task_state id state g s ≡ (err generation_mismatch, s)
    missed h =
        ap₂ (λ (r : Result (Unit {0})) (x : Store). (r, x))
          (update_task_state_result id g s d state ∙ rw h)
          (unfold update_task_state in
            ap (λ (ts : List Task). record s { tasks = ts }) (untouched id g _ s.tasks d h))

    go :
        (o : Option Task)
        → task_row id s ≡ o
        → ((t : Task) × (task_row id s ≡ some t)
            × (t.lease_generation ≡ g)
            × ((update_task_state id state g s).0 ≡ ok tt)
            × (task_row id (update_task_state id state g s).1
                ≡ some (record t { state = state; lease_generation = g + 1 }))
            × ((j : Text) → j ≢ id → task_row j (update_task_state id state g s).1 ≡ task_row j s))
          ⊎ ((holds_at g (task_row id s) ≡ false)
              × (update_task_state id state g s ≡ (err generation_mismatch, s)))
    go none e = let h : holds_at g (task_row id s) ≡ false = ap (holds_at g) e in inr (h, missed h)
    go (some t) e = elim (Bool-cases (t.lease_generation == g)) [
      | inl same ↦ inl (
        t,
        e,
        ground arith,
        update_task_state_result id g s d state ∙ rw (ap (holds_at g) e ∙ same),
        task_row-update_task_state id id g state s
            ∙ rw e (ground (arith, find_where_sound (has_id id) s.tasks e)),
        others,
      )
      | inr other ↦
          let h : holds_at g (task_row id s) ≡ false = ap (holds_at g) e ∙ other in
          inr (h, missed h)
    ]
