-- ===== src/Sync/Full/Examples.antt =====
-- A full export while an older task waits.
use mathlib.Core.List.{Memᴰ}
use bqcubbit.Base.{codes, str_eq, [], ◌∷◌, refl, arith}
use bqcubbit.State.{Task}
use bqcubbit.State.Sqlite.{Store}
use bqcubbit.State.Sqlite.Tasks.{new_task, create_tasks}
use bqcubbit.State.Sqlite.Tasks.Keys.{DistinctIds}
use bqcubbit.State.Sqlite.Tasks.Claim.{LeasesEndBefore}
use bqcubbit.State.Samples.{waiting, two_tasks}
use bqcubbit.Sync.Samples.{plain_sync, noon, no_objects}
use bqcubbit.Sync.Full.{full_task, full_worker, full_created}
use bqcubbit.Sync.Full.Claims.{full_created_leaves_own}

abbrev own_task : Task
own_task = full_task (codes "own") 1 1

abbrev own_created : Store
own_created = (create_tasks 9 (own_task ∷ []) two_tasks).1

two_tasks-DistinctIds : DistinctIds two_tasks.tasks
unfolding str_eq
two_tasks-DistinctIds = (refl, (refl, tt))

no_leases : LeasesEndBefore 9 full_worker own_created
unfolding create_tasks str_eq
no_leases u (Memᴰ.head e) h = absurd (ground (arith, e))
no_leases u (Memᴰ.tail (Memᴰ.head e)) h = absurd (ground (arith, e))
no_leases u (Memᴰ.tail (Memᴰ.tail (Memᴰ.head e))) h = absurd (ground (arith, e))
no_leases u (Memᴰ.tail (Memᴰ.tail (Memᴰ.tail m))) h = elim m [ ]

full_created_leaves_own_example :
    Memᴰ
      (new_task 9 own_task)
      (full_created plain_sync noon
        (codes "d")
        (codes "t")
        (8 ∷ [])
        ((1 ∷ 2 ∷ []) ∷ [])
        (create_tasks 9 (own_task ∷ []) two_tasks)
        no_objects).1.1.tasks
unfolding create_tasks str_eq
full_created_leaves_own_example =
    full_created_leaves_own plain_sync noon (codes "d") (codes "t") (8 ∷ []) ((1 ∷ 2 ∷ []) ∷ [])
      no_objects own_task (waiting (codes "b") 4) two_tasks two_tasks-DistinctIds no_leases refl
      (Memᴰ.tail (Memᴰ.head refl)) refl (omega arith)
