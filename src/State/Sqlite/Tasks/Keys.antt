-- ===== src/State/Sqlite/Tasks/Keys.antt =====
-- The primary key of `tasks`: no operation makes two rows of one id.
use mathlib.Core.List.{Memᴰ}
use bqcubbit.Base.{
  ℕ, Text, str_eq, str_eq_sym, str_eq_refl, Bool, Option-cases, true, not, ◌&&◌, none, some, List,
  [], ◌∷◌, ◌++◌, ◌≡◌, ◌≢◌, refl, sym, ap, subst, ◌∙◌, inl, inr, arith, keep, find_where, Distinct,
  update_where-Distinct, keep-Distinct, append-Distinct,
}
use bqcubbit.State.{TaskState, Task}
use bqcubbit.State.Sqlite.{Store}
use bqcubbit.State.Sqlite.Runs.{cleanup_stale_tasks, in_runs}
use bqcubbit.State.Sqlite.Tasks.{
  has_id, new_task, insert_tasks, create_tasks, claim_task, oldest, is_pending, update_task_state,
  renew_lease, reset_expired_leases, claimed, at_generation, is_abandoned,
}

abbrev pub same_id : Task → Task → Bool
same_id a b = str_eq b.id a.id

abbrev pub DistinctIds : List Task → Type 0
DistinctIds = Distinct same_id

insert_tasks-DistinctIds :
    (now : ℕ) (ts rows out : List Task)
    → DistinctIds rows
    → insert_tasks now ts rows ≡ some out
    → DistinctIds out
unfolding insert_tasks
insert_tasks-DistinctIds now [] rows out d e =
    let same : rows ≡ out = cc in subst DistinctIds same d
insert_tasks-DistinctIds now (t ∷ ts) rows out d e =
    elim (Option-cases (find_where (has_id t.id) rows)) [
      | inl free ↦
          insert_tasks-DistinctIds now ts (rows ++ new_task now t ∷ []) out
            (append-Distinct same_id rows (new_task now t) (λ x. str_eq_sym t.id x.id) d free)
            (rw (free, insert_tasks) at e)
      | inr (old, taken) ↦ absurd (cc (rw (taken, insert_tasks) at e))
    ]

-- What the task operations and the clean-up do to the list of tasks keeps the ids distinct.
pub create_tasks-DistinctIds :
    (now : ℕ) (ts : List Task) (s : Store)
    → DistinctIds s.tasks
    → DistinctIds (create_tasks now ts s).1.tasks
unfolding create_tasks
create_tasks-DistinctIds now ts s d = elim (Option-cases (insert_tasks now ts s.tasks)) [
  | inl failed' ↦ rw (failed', create_tasks) d
  | inr (rows, done) ↦ rw (done, create_tasks) (insert_tasks-DistinctIds now ts s.tasks rows d done)
]

pub claim_task-DistinctIds :
    (now : ℕ) (worker : Text) (s : Store)
    → DistinctIds s.tasks
    → DistinctIds (claim_task now worker s).1.tasks
unfolding claim_task
claim_task-DistinctIds now worker s d = elim (Option-cases (oldest (keep is_pending s.tasks))) [
  | inl nothing ↦ rw (nothing, claim_task) d
  | inr (t, found) ↦
      rw (found, claim_task)
        (update_where-Distinct same_id (λ u. has_id t.id u && is_pending u) (claimed now worker)
          s.tasks (λ x y. refl) (λ x y. refl) d)
]

pub update_task_state-DistinctIds :
    (id : Text) (state : TaskState) (generation : ℕ) (s : Store)
    → DistinctIds s.tasks
    → DistinctIds (update_task_state id state generation s).1.tasks
unfolding update_task_state
update_task_state-DistinctIds id state generation s d =
    update_where-Distinct same_id (at_generation id generation) _ s.tasks (λ x y. refl)
      (λ x y. refl) d

pub renew_lease-DistinctIds :
    (now : ℕ) (id : Text) (generation : ℕ) (s : Store)
    → DistinctIds s.tasks
    → DistinctIds (renew_lease now id generation s).1.tasks
unfolding renew_lease
renew_lease-DistinctIds now id generation s d =
    update_where-Distinct same_id (at_generation id generation) _ s.tasks (λ x y. refl)
      (λ x y. refl) d

pub reset_expired_leases-DistinctIds :
    (now : ℕ) (s : Store) → DistinctIds s.tasks → DistinctIds (reset_expired_leases now s).1.tasks
unfolding reset_expired_leases
reset_expired_leases-DistinctIds now s d =
    update_where-Distinct same_id (is_abandoned now) _ s.tasks (λ x y. refl) (λ x y. refl) d

pub cleanup_stale_tasks-DistinctIds :
    (ids : List ℕ) (s : Store)
    → DistinctIds s.tasks
    → DistinctIds (cleanup_stale_tasks ids s).1.tasks
unfolding cleanup_stale_tasks
cleanup_stale_tasks-DistinctIds [] s d = d
cleanup_stale_tasks-DistinctIds (i ∷ ids) s d =
    keep-Distinct same_id (λ t. not (in_runs (i ∷ ids) t)) s.tasks d

find_of_mem :
    (t : Task) (id : Text) (ts : List Task)
    → Memᴰ t ts
    → str_eq t.id id ≡ true
    → find_where (has_id id) ts ≢ none
find_of_mem t id [] m e h = elim m [ ]
find_of_mem t id (u ∷ ts) (Memᴰ.head same) e h =
    ground (arith, ap (λ (x : Task). str_eq x.id id) same)
find_of_mem t id (u ∷ ts) (Memᴰ.tail m) e h = ground (arith, find_of_mem t id ts m e)

-- With distinct ids, two rows of one id are one row.
pub row_unique :
    (t u : Task) (ts : List Task) → DistinctIds ts → Memᴰ t ts → Memᴰ u ts → t.id ≡ u.id → t ≡ u
row_unique t u [] d m n e = elim m [ ]
row_unique t u (v ∷ ts) d (Memᴰ.head p) (Memᴰ.head q) e = p ∙ sym q
row_unique t u (v ∷ ts) d (Memᴰ.head p) (Memᴰ.tail n) e =
    absurd (find_of_mem u v.id ts n (rw (sym e ∙ ap (λ (x : Task). x.id) p) (str_eq_refl v.id)) d.0)
row_unique t u (v ∷ ts) d (Memᴰ.tail m) (Memᴰ.head q) e =
    absurd (find_of_mem t v.id ts m (rw (e ∙ ap (λ (x : Task). x.id) q) (str_eq_refl v.id)) d.0)
row_unique t u (v ∷ ts) d (Memᴰ.tail m) (Memᴰ.tail n) e = row_unique t u ts d.1 m n e
