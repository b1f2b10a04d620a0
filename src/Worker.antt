-- ===== src/Worker.antt =====
-- internal/worker/worker.go: a worker over the store that it is given, `StateStore`, whose
-- operations are those of the record TaskStore with a clock.
pub mod Stale
pub mod Pool
pub mod Life
pub mod Sqlite
mod Examples
use bqcubbit.Base.{ℕ, ◌≡◌, Text, Bool, true, false, List, [], ◌∷◌, if◌then◌else◌}
use bqcubbit.State.{
  TaskState, completed, failed, Task, Result, ok, err, Action, generation_mismatch,
}

-- The store as a worker sees it, and what it promises: once a renewal or a write at a generation
-- was accepted, that generation is spent, whatever others do in between (`Later`).
pub record TaskStore : Type 1 where
  pub State : Type 0
  pub claim_task : ℕ → Text → Action State Task
  pub renew_lease : ℕ → Text → ℕ → Action State Bool
  pub update_task_state : Text → TaskState → ℕ → Action State (Unit {0})
  pub IsSound : State → Type 0
  pub Later : State → State → Type 0
  pub renewal_spends :
      (now : ℕ) (id : Text) (g : ℕ) (s t : State)
      → IsSound s
      → (renew_lease now id g s).0 ≡ ok true
      → Later (renew_lease now id g s).1 t
      → (later : ℕ) → (renew_lease later id g t).0 ≡ ok false
  pub write_spends :
      (id : Text) (state : TaskState) (g : ℕ) (s t : State)
      → IsSound s
      → (update_task_state id state g s).0 ≡ ok tt
      → Later (update_task_state id state g s).1 t
      → (again : TaskState) → update_task_state id again g t ≡ (err generation_mismatch, t)

module _ (store : TaskStore) where
  open store use {State}

  -- What follows the answer to a renewal; `rec` is the ticks after it. True if the task is
  -- cancelled.
  unfoldable pub beat_next : (State → Bool × State) → Result Bool × State → Bool × State
  beat_next rec (ok true, s) = rec s
  beat_next rec (ok false, s) = (true, s)
  beat_next rec (err e, s) = (true, s)

  -- `heartbeat` over the ticks until the task ends: each with its time, and what others do to the
  -- store before it.
  unfoldable pub heartbeat : Text → ℕ → List (ℕ × (State → State)) → State → Bool × State
  unfolding beat_next
  heartbeat id generation [] s = (false, s)
  heartbeat id generation ((now, others) ∷ ticks) s =
      beat_next (heartbeat id generation ticks) (store.renew_lease now id generation (others s))

  abbrev pub final_state : Bool → TaskState
  final_state succeeded = if succeeded then completed else failed

  -- What follows the claim: the executor, whose answer is whether it succeeded, and the last write,
  -- whose error is dropped.
  unfoldable pub run_claimed : (Text → State → Bool × State) → Result Task × State → State
  run_claimed execute (err e, s) = s
  run_claimed execute (ok t, s) =
      let (succeeded, s') = execute t.id s in
      (store.update_task_state t.id (final_state succeeded) t.lease_generation s').1

  -- `runOnce`
  unfoldable pub run_once : ℕ → Text → (Text → State → Bool × State) → State → State
  unfolding run_claimed
  run_once now worker execute s = run_claimed execute (store.claim_task now worker s)
