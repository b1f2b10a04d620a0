-- ===== src/State/Sqlite/Tasks/Examples.antt =====
-- The theorems of the tasks at concrete stores.
use mathlib.Core.List.{Memᴰ}
use bqcubbit.Base.{
  ℕ, Text, codes, str_eq, false, none, some, [], ◌∷◌, map, ◌≡◌, ◌≢◌, ◌⊎◌, refl, arith, keep, length,
  if◌then◌else◌,
}
use bqcubbit.State.{
  TaskState, pending, assigned, completed, Task, ok, err, generation_mismatch, no_pending_tasks,
}
use bqcubbit.State.Sqlite.{Store, init}
use bqcubbit.State.Sqlite.Tasks.{
  claim_task, update_task_state, renew_lease, reset_expired_leases, list_expired_leases,
  is_abandoned, selected,
}
use bqcubbit.State.Sqlite.Tasks.Keys.{DistinctIds}
use bqcubbit.State.Sqlite.Tasks.Claim.{
  claim_task_exact, claim_task_exclusive, handed, IsNext, LeasesEndBefore, claim_update,
}
use bqcubbit.State.Sqlite.Tasks.Lease.{task_row, holds_at, update_task_state_exact}
use bqcubbit.State.Sqlite.Tasks.Steps.{here}
use bqcubbit.State.Sqlite.Tasks.Fence.{write_ends_claim}
use bqcubbit.State.Sqlite.Tasks.Expiry.{freed, reset_expired_leases_exact}
use bqcubbit.State.Samples.{waiting, two_tasks, alice}

two_tasks-DistinctIds : DistinctIds two_tasks.tasks
unfolding str_eq
two_tasks-DistinctIds = (refl, (refl, tt))

no_leases : (now : ℕ) (worker : Text) → LeasesEndBefore now worker two_tasks
no_leases now worker u (Memᴰ.head e) h = absurd (ground (arith, e))
no_leases now worker u (Memᴰ.tail (Memᴰ.head e)) h = absurd (ground (arith, e))
no_leases now worker u (Memᴰ.tail (Memᴰ.tail m)) h = elim m [ ]

claim_run : (claim_task 100 alice two_tasks).0 ≡ ok (handed 100 alice (waiting (codes "b") 4))
unfolding claim_task str_eq
claim_run = refl

claim_task_exact_example :
    (((u : Task) → Memᴰ u two_tasks.tasks → u.state ≢ pending)
      × (claim_task 100 alice two_tasks ≡ (err no_pending_tasks, two_tasks)))
    ⊎ ((t : Task) × IsNext t two_tasks
        × (claim_task 100 alice two_tasks ≡ (
          ok (handed 100 alice t),
          record two_tasks { tasks = claim_update 100 alice t two_tasks.tasks },
        )))
claim_task_exact_example =
    claim_task_exact 100 alice two_tasks two_tasks-DistinctIds (no_leases 100 alice)

one_lease : LeasesEndBefore 200 (codes "bob") (claim_task 100 alice two_tasks).1
unfolding claim_task str_eq
one_lease u (Memᴰ.head e) h = absurd (ground (arith, e))
one_lease u (Memᴰ.tail (Memᴰ.head e)) h = absurd (ground (arith, e))
one_lease u (Memᴰ.tail (Memᴰ.tail m)) h = elim m [ ]

claim_task_exclusive_example : ◌≢◌ {A = Text} (codes "b") (codes "a")
unfolding claim_task str_eq
claim_task_exclusive_example =
    claim_task_exclusive 100 200 alice (codes "bob") two_tasks
      (handed 100 alice (waiting (codes "b") 4)) (handed 200 (codes "bob") (waiting (codes "a") 9))
      two_tasks-DistinctIds (no_leases 100 alice) one_lease refl refl

update_task_state_exact_example :
    ((t : Task) × (task_row (codes "a") two_tasks ≡ some t)
      × (t.lease_generation ≡ 0)
      × ((update_task_state (codes "a") completed 0 two_tasks).0 ≡ ok tt)
      × (task_row (codes "a") (update_task_state (codes "a") completed 0 two_tasks).1
          ≡ some (record t { state = completed; lease_generation = 1 }))
      × ((j : Text)
          → j ≢ codes "a"
          → task_row j (update_task_state (codes "a") completed 0 two_tasks).1
            ≡ task_row j two_tasks))
    ⊎ ((holds_at 0 (task_row (codes "a") two_tasks) ≡ false)
        × (update_task_state (codes "a") completed 0 two_tasks
            ≡ (err generation_mismatch, two_tasks)))
update_task_state_exact_example =
    update_task_state_exact (codes "a") completed 0 two_tasks two_tasks-DistinctIds

write_ends_claim_example :
    ((again : TaskState)
      → (update_task_state
          (codes "a")
          again
          0
          (update_task_state (codes "a") completed 0 two_tasks).1).0
        ≡ err generation_mismatch)
    × ((later : ℕ)
        → (renew_lease later
            (codes "a")
            0
            (update_task_state (codes "a") completed 0 two_tasks).1).0
          ≡ ok false)
write_ends_claim_example =
    write_ends_claim (codes "a") completed 0 two_tasks two_tasks-DistinctIds
      (unfold update_task_state str_eq in refl) here

abbrev lost : Task
lost = record (waiting (codes "c") 1) {
  state = assigned;
  worker_id = some alice;
  lease_expires_at = some 30;
}

abbrev one_lost : Store
one_lost = record init { tasks = lost ∷ [] }

reset_expired_leases_exact_example :
    ((reset_expired_leases 40 one_lost).0
      ≡ ok (length (map selected (keep (is_abandoned 40) one_lost.tasks))))
    × ((list_expired_leases 40 one_lost).0
        ≡ ok (map selected (keep (is_abandoned 40) one_lost.tasks)))
    × ((id : Text)
        → task_row id (reset_expired_leases 40 one_lost).1 ≡ (elim (task_row id one_lost) [
          | none ↦ none
          | some t ↦ some (if is_abandoned 40 t then freed t else t)
        ]))
    × ((list_expired_leases 40 (reset_expired_leases 40 one_lost).1).0 ≡ ok [])
reset_expired_leases_exact_example = reset_expired_leases_exact 40 one_lost
