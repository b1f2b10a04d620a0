-- ===== src/State/Sqlite/Tasks/Claim.antt =====
-- What `ClaimTask` promises: it hands out the oldest pending task, each task to one worker.
use mathlib.Core.List.{Memᴰ}
use bqcubbit.Base.{
  ℕ, suc, ◌+◌, ◌≤◌, ◌<◌, Text, str_eq, str_eq_refl, eq_of_str_eq, Bool-cases, Option-cases, true,
  ◌&&◌, Option, none, some, List, [], ◌≡◌, ◌≢◌, ◌⊎◌, sym, ap, subst, ◌∙◌, inl, inr, arith,
  if◌then◌else◌, keep, mem_keep, keep_mem, update_where, mem_update_where, update_where_mem,
}
use bqcubbit.State.{pending, Task, Result, ok, err, no_rows, no_pending_tasks}
use bqcubbit.State.Sqlite.{Store}
use bqcubbit.State.Sqlite.Tasks.{
  has_id, is_pending, is_held_by, oldest, longest_lease, lease_key, lease_seconds, selected,
  claimed, claim_task,
}
use bqcubbit.State.Sqlite.Tasks.Select.{oldest_mem, oldest_empty, oldest-le, longest_lease_unique}
use bqcubbit.State.Sqlite.Tasks.Keys.{DistinctIds, row_unique, claim_task-DistinctIds}

-- What `ClaimTask` returns of the row that it claims.
abbrev pub handed : ℕ → Text → Task → Task
handed now worker t = record (selected (claimed now worker t)) {
  worker_id = some worker;
  lease_expires_at = some (now + lease_seconds);
}

-- Every lease that the worker holds runs out before one that is given now.
abbrev pub LeasesEndBefore : ℕ → Text → Store → Type 0
LeasesEndBefore now worker s =
    (u : Task)
    → Memᴰ u s.tasks
    → is_held_by worker u ≡ true
    → lease_key u < suc (now + lease_seconds)

unfoldable pub claim_update : ℕ → Text → Task → List Task → List Task
claim_update now worker t ts =
    update_where (λ u. has_id t.id u && is_pending u) (claimed now worker) ts

module _ (now : ℕ) (worker : Text) (s : Store) (t : Task) (distinct : DistinctIds s.tasks)
    (earlier : LeasesEndBefore now worker s)
    (found : oldest (keep is_pending s.tasks) ≡ some t) where
  claimed_mem : Memᴰ t s.tasks × (is_pending t ≡ true)
  claimed_mem = let (p, m) = mem_keep is_pending s.tasks t (oldest_mem _ t found) in (m, p)

  own_row : (x : Task) → Memᴰ x s.tasks → str_eq x.id t.id ≡ true → x ≡ t
  own_row x i e = row_unique x t s.tasks distinct i claimed_mem.0 (eq_of_str_eq x.id t.id e)

  held_row :
      (x y : Task)
      → Memᴰ x s.tasks
      → y ≡ (if has_id t.id x && is_pending x then claimed now worker x else x)
      → is_held_by worker y ≡ true
      → (y ≡ claimed now worker t) ⊎ (lease_key y < suc (now + lease_seconds))
  held_row x y i e held = elim (Bool-cases (has_id t.id x && is_pending x)) [
    | inl hit ↦ inl (rw hit at e ∙ ap (claimed now worker) (own_row x i (ground arith)))
    | inr miss ↦ let same : y ≡ x = rw miss at e in inr (rw same (earlier x i (rw same at held)))
  ]

  claimed_row : Memᴰ (claimed now worker t) (claim_update now worker t s.tasks)
  unfolding claim_update
  claimed_row =
      let m : Memᴰ (if has_id t.id t && is_pending t then claimed now worker t else t)
          (claim_update now worker t s.tasks) =
        update_where_mem (λ u. has_id t.id u && is_pending u) (claimed now worker) s.tasks t
          claimed_mem.0 in
      rw (str_eq_refl t.id, claimed_mem.1) at m

  fetched :
      longest_lease (keep (is_held_by worker) (claim_update now worker t s.tasks))
      ≡ some (claimed now worker t)
  fetched =
      longest_lease_unique _ (claimed now worker t)
        (keep_mem (is_held_by worker) _ (claimed now worker t) (rw (str_eq_refl worker))
          claimed_row)
        λ y n.
          let (held, k) = mem_keep (is_held_by worker) (claim_update now worker t s.tasks) y n in
          let (x, i, e) =
            mem_update_where (λ u. has_id t.id u && is_pending u) (claimed now worker) s.tasks y
              (unfold claim_update in k) in
          held_row x y i e held

  pub claim_task_lem :
      claim_task now worker s
      ≡ (ok (handed now worker t), record s { tasks = claim_update now worker t s.tasks })
  claim_task_lem =
      unfold claim_task claim_update in
      rw (found, claim_task)
        (ap
          (λ (o : Option Task).
            (fetch_result o, record s { tasks = claim_update now worker t s.tasks }))
          fetched)
    where
      fetch_result : Option Task → Result Task
      fetch_result none = err no_rows
      fetch_result (some u) = ok (record (selected u) {
        worker_id = some worker;
        lease_expires_at = some (now + lease_seconds);
      })

-- The oldest pending task of the store.
pub record IsNext (t : Task) (s : Store) : Type 0 where
  pub is_row : Memᴰ t s.tasks
  pub waits : t.state ≡ pending
  pub oldest : (u : Task) → Memᴰ u s.tasks → u.state ≡ pending → t.created_at ≤ u.created_at

state_of_is_pending : (t : Task) → is_pending t ≡ true → t.state ≡ pending
state_of_is_pending t h = ground arith

is_pending_of_state : (t : Task) → t.state ≡ pending → is_pending t ≡ true
is_pending_of_state t h = ground arith

oldest-IsNext : (s : Store) (t : Task) → oldest (keep is_pending s.tasks) ≡ some t → IsNext t s
oldest-IsNext s t e =
    let (p, m) = mem_keep is_pending s.tasks t (oldest_mem _ t e) in
    record {
      is_row = m;
      waits = state_of_is_pending t p;
      oldest =
          λ u n h. oldest-le _ t u e (keep_mem is_pending s.tasks u (is_pending_of_state u h) n);
    }

-- With distinct ids, and where the worker's other leases end before a new one would, `ClaimTask`
-- fails and changes nothing if no task is pending; otherwise it takes the oldest pending task,
-- hands out that task with its generation raised, and writes only its row.
pub claim_task_exact :
    (now : ℕ) (worker : Text) (s : Store)
    → DistinctIds s.tasks
    → LeasesEndBefore now worker s
    → (((u : Task) → Memᴰ u s.tasks → u.state ≢ pending)
        × (claim_task now worker s ≡ (err no_pending_tasks, s)))
      ⊎ ((t : Task) × IsNext t s
          × (claim_task now worker s
              ≡ (ok (handed now worker t), record s { tasks = claim_update now worker t s.tasks })))
claim_task_exact now worker s d h = elim (Option-cases (oldest (keep is_pending s.tasks))) [
  | inl nothing ↦ inr' nothing
  | inr (t, found) ↦ inr (t, oldest-IsNext s t found, claim_task_lem now worker s t d h found)
]
  where
    inr' :
        oldest (keep is_pending s.tasks) ≡ none
        → (((u : Task) → Memᴰ u s.tasks → u.state ≢ pending)
            × (claim_task now worker s ≡ (err no_pending_tasks, s)))
          ⊎ ((t : Task) × IsNext t s
              × (claim_task now worker s ≡ (
                ok (handed now worker t),
                record s { tasks = claim_update now worker t s.tasks },
              )))
    inr' nothing = inl (
      λ u m p.
          let m' : Memᴰ u [] =
            rw (oldest_empty _ nothing) at
              (keep_mem is_pending s.tasks u (is_pending_of_state u p) m) in
          elim m' [ ],
      unfold claim_task in rw (nothing, claim_task),
    )

-- After a claim the claimed row is no longer pending.
claimed_not_pending :
    (now : ℕ) (worker : Text) (s : Store) (t u : Task)
    → DistinctIds s.tasks
    → IsNext t s
    → Memᴰ u (claim_update now worker t s.tasks)
    → u.state ≡ pending
    → u.id ≢ t.id
unfolding claim_update
claimed_not_pending now worker s t u d next m p e =
    let (x, i, same) =
      mem_update_where (λ v. has_id t.id v && is_pending v) (claimed now worker) s.tasks u m in
    go x i same
  where
    go :
        (x : Task)
        → Memᴰ x s.tasks
        → u ≡ (if has_id t.id x && is_pending x then claimed now worker x else x)
        → ⊥
    go x i same = elim (Bool-cases (has_id t.id x && is_pending x)) [
      | inl hit ↦
          let q : u ≡ claimed now worker x = rw hit at same in
          ground (arith, ap (λ (y : Task). y.state) q)
      | inr miss ↦
          let q : u ≡ x = rw miss at same in
          let i' : str_eq x.id t.id ≡ true =
            rw (sym (ap (λ (y : Task). y.id) q) ∙ e) (str_eq_refl t.id) in
          ground (arith, ap (λ (y : Task). y.state) q)
    ]

-- With distinct ids, and where at each claim the worker's other leases end before a new one would,
-- two claims in a row, by any workers, never hand out the same task.
pub claim_task_exclusive :
    (now later : ℕ) (worker other : Text) (s : Store) (t u : Task)
    → DistinctIds s.tasks
    → LeasesEndBefore now worker s
    → LeasesEndBefore later other (claim_task now worker s).1
    → (claim_task now worker s).0 ≡ ok t
    → (claim_task later other (claim_task now worker s).1).0 ≡ ok u
    → t.id ≢ u.id
claim_task_exclusive now later worker other s t u d h h' e e' =
    elim (claim_task_exact now worker s d h) [
      | inl (no_tasks, same) ↦ absurd (cc (e, ap (λ (r : Result Task × Store). r.0) same))
      | inr (x, next, same) ↦
          elim (claim_task_exact later other (claim_task now worker s).1
            (claim_task-DistinctIds now worker s d) h') [
              | inl (no_tasks, same') ↦
                  absurd (cc (e', ap (λ (r : Result Task × Store). r.0) same'))
              | inr (y, next', same') ↦ λ eq.
                  claimed_not_pending now worker s x y d next
                    (subst (λ (r : Result Task × Store). Memᴰ y r.1.tasks) same next'.is_row)
                    next'.waits
                    (id_of y u later other (sym (ap (λ (r : Result Task × Store). r.0) same') ∙ e')
                      ∙ sym eq
                      ∙ sym (
                          id_of x t now worker
                            (sym (ap (λ (r : Result Task × Store). r.0) same) ∙ e)))
            ]
    ]
  where
    id_of :
        (x t : Task) (n : ℕ) (w : Text)
        → ◌≡◌ {A = Result Task} (ok (handed n w x)) (ok t)
        → x.id ≡ t.id
    id_of x t n w e = ground arith
