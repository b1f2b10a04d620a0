-- ===== src/State/Sqlite/Runs/Laws.antt =====
-- What the recovery from a crash does to the runs and their tasks.
use mathlib.Core.List.{Memᴰ}
use bqcubbit.Base.{
  ℕ, ◌≤◌, Bool-cases, true, not, some, List, [], ◌∷◌, map, ◌≡◌, ◌≢◌, ◌↔◌, refl, sym, ap, subst, ◌∙◌,
  inl, inr, arith, ◌==◌, keep, any, mem_keep, keep_mem, update_where,
}
use bqcubbit.State.{SyncRun, Task, ok, aborted}
use bqcubbit.State.Sqlite.{Store}
use bqcubbit.State.Sqlite.Runs.{is_stale, abort_stale_runs, in_runs, cleanup_stale_tasks}

-- The ids that `AbortStaleRuns` returns.
abbrev pub stale_ids : ℕ → Store → List ℕ
stale_ids now s = map (λ r. r.id) (keep (is_stale now) s.runs)

-- `AbortStaleRuns` and then `CleanupStaleTasks` of the runs it names, as at the start of a run.
unfoldable pub recover : ℕ → Store → Store
recover now s = (cleanup_stale_tasks (stale_ids now s) (abort_stale_runs now s).1).1

none_stale :
    (now later : ℕ) (rs : List SyncRun)
    → later ≤ now
    → keep (is_stale later) (
        update_where (is_stale now) (λ r. record r { state = aborted; completed_at = some now }) rs)
      ≡ []
none_stale now later [] h = refl
none_stale now later (r ∷ rs) h = ground (arith, none_stale now later rs h)

any_sound : (k : ℕ) (ids : List ℕ) → any (λ i. i == k) ids ≡ true → Memᴰ k ids
any_sound k [] h = cc
any_sound k (i ∷ ids) h = elim (Bool-cases (i == k)) [
  | inl same ↦ Memᴰ.head (ground arith)
  | inr other ↦ Memᴰ.tail (any_sound k ids (ground arith))
]

any_complete : (k : ℕ) (ids : List ℕ) → Memᴰ k ids → any (λ i. i == k) ids ≡ true
any_complete k [] m = elim m [ ]
any_complete k (i ∷ ids) (Memᴰ.head e) = ground arith
any_complete k (i ∷ ids) (Memᴰ.tail m) = ground (arith, any_complete k ids m)

id_mem : (r : SyncRun) (rs : List SyncRun) → Memᴰ r rs → Memᴰ r.id (map (λ r. r.id) rs)
id_mem r [] m = elim m [ ]
id_mem r (q ∷ rs) (Memᴰ.head e) = Memᴰ.head (ap (λ (x : SyncRun). x.id) e)
id_mem r (q ∷ rs) (Memᴰ.tail m) = Memᴰ.tail (id_mem r rs m)

mem_id :
    (k : ℕ) (rs : List SyncRun)
    → Memᴰ k (map (λ r. r.id) rs)
    → (r : SyncRun) × Memᴰ r rs × (k ≡ r.id)
mem_id k [] m = elim m [ ]
mem_id k (q ∷ rs) (Memᴰ.head e) = (q, Memᴰ.head refl, e)
mem_id k (q ∷ rs) (Memᴰ.tail m) = let (r, n, e) = mem_id k rs m in (r, Memᴰ.tail n, e)

-- The tasks that the clean-up of some runs leaves.
cleanup_tasks :
    (ids : List ℕ) (s : Store)
    → (cleanup_stale_tasks ids s).1.tasks ≡ keep (λ t. not (in_runs ids t)) s.tasks
unfolding cleanup_stale_tasks
cleanup_tasks [] s = sym (keep_all s.tasks)
  where
    keep_all : (ts : List Task) → keep (λ t. not (in_runs [] t)) ts ≡ ts
    keep_all [] = refl
    keep_all (t ∷ ts) = rw (keep_all ts)
cleanup_tasks (i ∷ ids) s = refl

abort_tasks : (now : ℕ) (s : Store) → (abort_stale_runs now s).1.tasks ≡ s.tasks
unfolding abort_stale_runs
abort_tasks now s = refl

-- After a recovery the tasks are those of the runs that were not stale: of the old tasks, exactly
-- those whose run id belongs to no run that was running for more than 24 hours.
pub recover_exact :
    (now : ℕ) (s : Store) (t : Task)
    → Memᴰ t (recover now s).tasks ↔ (
        Memᴰ t s.tasks
        × ((r : SyncRun) → Memᴰ r s.runs → is_stale now r ≡ true → r.id ≢ t.sync_run_id))
unfolding recover
recover_exact now s t = (
  λ m.
      let (alive, n) =
        mem_keep (λ u. not (in_runs (stale_ids now s) u)) s.tasks t (subst (Memᴰ t) tasks_lem m) in
      (
        n,
        λ r k old e. dead alive (
            any_complete t.sync_run_id (stale_ids now s) (
              subst (λ (i : ℕ). Memᴰ i (stale_ids now s)) e
                (id_mem r _ (keep_mem (is_stale now) s.runs r old k)))),
      ),
  λ (m, young).
      subst (Memᴰ t) (sym tasks_lem)
        (keep_mem (λ u. not (in_runs (stale_ids now s) u)) s.tasks t (kept young) m),
)
  where
    tasks_lem :
        (cleanup_stale_tasks (stale_ids now s) (abort_stale_runs now s).1).1.tasks
        ≡ keep (λ u. not (in_runs (stale_ids now s) u)) s.tasks
    tasks_lem =
        cleanup_tasks (stale_ids now s) (abort_stale_runs now s).1
        ∙ ap (keep (λ u. not (in_runs (stale_ids now s) u))) (abort_tasks now s)

    dead : not (in_runs (stale_ids now s) t) ≡ true → ¬ (in_runs (stale_ids now s) t ≡ true)
    dead alive h = cc (rw h at alive)

    kept :
        ((r : SyncRun) → Memᴰ r s.runs → is_stale now r ≡ true → r.id ≢ t.sync_run_id)
        → not (in_runs (stale_ids now s) t) ≡ true
    kept young = elim (Bool-cases (in_runs (stale_ids now s) t)) [
      | inl hit ↦
          let (r, m, e) = mem_id t.sync_run_id _ (any_sound t.sync_run_id (stale_ids now s) hit) in
          let (old, n) = mem_keep (is_stale now) s.runs r m in absurd (young r n old (sym e))
      | inr miss ↦ rw miss
    ]

-- A second recovery, no later than the first, finds no stale run.
pub abort_stale_runs_once :
    (now later : ℕ) (s : Store)
    → later ≤ now
    → (abort_stale_runs later (abort_stale_runs now s).1).0 ≡ ok []
unfolding abort_stale_runs
abort_stale_runs_once now later s h = rw (none_stale now later s.runs h)
