-- ===== src/Worker/Sqlite.antt =====
-- The SQLite store keeps what a worker's store promises.
use bqcubbit.Base.{ℕ, Text, ◌≡◌, inl, inr}
use bqcubbit.State.{TaskState, ok, err, generation_mismatch}
use bqcubbit.State.Sqlite.{Store}
use bqcubbit.State.Sqlite.Tasks.{claim_task, renew_lease, update_task_state}
use bqcubbit.State.Sqlite.Tasks.Keys.{DistinctIds, update_task_state-DistinctIds}
use bqcubbit.State.Sqlite.Tasks.Lease.{update_task_state_exact}
use bqcubbit.State.Sqlite.Tasks.Steps.{Reaches, Reaches-DistinctIds}
use bqcubbit.State.Sqlite.Tasks.Fence.{renewal_ends_claim, write_ends_claim}
use bqcubbit.Worker.{TaskStore}

pub write_refused :
    (id : Text) (state : TaskState) (g : ℕ) (s t : Store)
    → DistinctIds s.tasks
    → (update_task_state id state g s).0 ≡ ok tt
    → Reaches (update_task_state id state g s).1 t
    → (again : TaskState) → update_task_state id again g t ≡ (err generation_mismatch, t)
write_refused id state g s t d e r again =
    elim (update_task_state_exact id again g t
      (Reaches-DistinctIds r (update_task_state-DistinctIds id state g s d))) [
        | inl (row, found, at, done, after, rest) ↦
            absurd (cc (done, (write_ends_claim id state g s d e r).0 again))
        | inr (missed, same) ↦ same
      ]

-- Others may call the store as they like, as long as they delete no task.
abbrev pub sqlite_tasks : TaskStore
sqlite_tasks = record {
  State = Store;
  claim_task = claim_task;
  renew_lease = renew_lease;
  update_task_state = update_task_state;
  IsSound = λ s. DistinctIds s.tasks;
  Later = Reaches;
  renewal_spends = λ now id g s t d e r later. (renewal_ends_claim now id g s d e r).1 later;
  write_spends = λ id state g s t d e r again. write_refused id state g s t d e r again;
}
