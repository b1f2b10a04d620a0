-- ===== src/State/Sqlite/Tasks/Expiry.antt =====
-- Leases that ran out: `ListExpiredLeases` and `ResetExpiredLeases`.
use bqcubbit.Base.{
  ℕ, suc, ◌≤◌, Text, none, some, List, [], ◌∷◌, map, ◌≡◌, refl, sym, ap, ◌∙◌, arith, if◌then◌else◌,
  length, keep, length-keep-eq-count_where, update_where, find_where-update,
}
use bqcubbit.State.{pending, Task, ok}
use bqcubbit.State.Sqlite.{Store}
use bqcubbit.State.Sqlite.Tasks.{
  has_id, is_abandoned, selected, list_expired_leases, reset_expired_leases,
}
use bqcubbit.State.Sqlite.Tasks.Lease.{task_row}

-- The row of an abandoned task after the reset.
abbrev pub freed : Task → Task
freed t = record t { state = pending; worker_id = none; lease_expires_at = none }

length-map : (ts : List Task) → length (map selected ts) ≡ length ts
length-map [] = refl
length-map (t ∷ ts) = ap suc (length-map ts)

none_abandoned :
    (now later : ℕ) (ts : List Task)
    → later ≤ now
    → keep (is_abandoned later) (update_where (is_abandoned now) freed ts) ≡ []
none_abandoned now later [] h = refl
none_abandoned now later (t ∷ ts) h = ground (arith, none_abandoned now later ts h)

-- `ResetExpiredLeases` returns the number of tasks that `ListExpiredLeases` would list; each of
-- those is pending again, with no worker and no lease and at its old generation, all other tasks
-- keep their rows, and afterwards `ListExpiredLeases` finds none.
pub reset_expired_leases_exact :
    (now : ℕ) (s : Store)
    → ((reset_expired_leases now s).0
        ≡ ok (length (map selected (keep (is_abandoned now) s.tasks))))
      × ((list_expired_leases now s).0 ≡ ok (map selected (keep (is_abandoned now) s.tasks)))
      × ((id : Text)
          → task_row id (reset_expired_leases now s).1 ≡ (elim (task_row id s) [
            | none ↦ none
            | some t ↦ some (if is_abandoned now t then freed t else t)
          ]))
      × ((list_expired_leases now (reset_expired_leases now s).1).0 ≡ ok [])
unfolding reset_expired_leases list_expired_leases
reset_expired_leases_exact now s = (
  ap ok (
      sym (
        length-map (keep (is_abandoned now) s.tasks)
        ∙ length-keep-eq-count_where (is_abandoned now) s.tasks)),
  refl,
  λ id. find_where-update (has_id id) (is_abandoned now) freed s.tasks (λ t. refl),
  ap (λ (ts : List Task). ok (map selected ts)) (none_abandoned now now s.tasks (omega arith)),
)
