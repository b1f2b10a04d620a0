-- ===== src/Worker/Stale.antt =====
-- A worker goes on using the generation of its claim, which a renewal or a write has spent.
use bqcubbit.Base.{ℕ, Text, Bool, true, false, List, ◌∷◌, ◌≡◌, refl, ap, ◌∙◌}
use bqcubbit.State.{TaskState, Task, Result, ok, err, generation_mismatch}
use bqcubbit.Worker.{TaskStore, beat_next, heartbeat, final_state, run_claimed, run_once}

module _ (store : TaskStore) where
  open store use {State}

  -- The second tick of a heartbeat cancels the task, if the first has not, whatever else the
  -- store's users do in between: no task outlives two ticks, which are 20 minutes. The store is
  -- sound before the first tick, and what happens between the two is what its promise covers.
  pub heartbeat_cancels :
      (id : Text) (g : ℕ) (now later : ℕ) (others others' : State → State)
      (ticks : List (ℕ × (State → State))) (s : State)
      → store.IsSound (others s)
      → store.Later
          (store.renew_lease now id g (others s)).1
          (others' (store.renew_lease now id g (others s)).1)
      → (heartbeat store id g ((now, others) ∷ (later, others') ∷ ticks) s).0 ≡ true
  unfolding heartbeat beat_next
  heartbeat_cancels id g now later others others' ticks s sound moves =
      first (store.renew_lease now id g (others s)) λ e.
        store.renewal_spends now id g (others s) (others' (store.renew_lease now id g (others s)).1)
          sound e moves later
    where
      second :
          (r : Result Bool × State)
          → r.0 ≡ ok false
          → (beat_next store (heartbeat store id g ticks) r).0 ≡ true
      second (ok true, t) e = absurd (cc)
      second (ok false, t) e = refl
      second (err x, t) e = refl

      first :
          (r : Result Bool × State)
          → (r.0 ≡ ok true → (store.renew_lease later id g (others' r.1)).0 ≡ ok false)
          → (beat_next store (heartbeat store id g ((later, others') ∷ ticks)) r).0 ≡ true
      first (ok true, t) spent = second (store.renew_lease later id g (others' t)) (spent refl)
      first (ok false, t) spent = refl
      first (err x, t) spent = refl

  -- When an executor has written the state of its task at the generation of the claim, at any
  -- moment of its run, to a sound store and with only what the store's promise covers after it,
  -- then the write that the worker adds is refused: the store stays as the executor left it.
  pub run_once_after_write :
      (now : ℕ) (worker : Text) (execute : Text → State → Bool × State) (s : State) (t : Task)
      (state : TaskState) (u : State)
      → store.IsSound u
      → (store.claim_task now worker s).0 ≡ ok t
      → (store.update_task_state t.id state t.lease_generation u).0 ≡ ok tt
      → store.Later
          (store.update_task_state t.id state t.lease_generation u).1
          (execute t.id (store.claim_task now worker s).1).1
      → run_once store now worker execute s ≡ (execute t.id (store.claim_task now worker s).1).1
  unfolding run_once run_claimed
  run_once_after_write now worker execute s t state u sound claimed' written moves =
      go (store.claim_task now worker s) claimed' λ again.
        store.write_spends t.id state t.lease_generation u
          (execute t.id (store.claim_task now worker s).1).1 sound written moves again
    where
      go :
          (r : Result Task × State)
          → r.0 ≡ ok t
          → ((again : TaskState)
              → store.update_task_state t.id again t.lease_generation (execute t.id r.1).1
                ≡ (err generation_mismatch, (execute t.id r.1).1))
          → run_claimed store execute r ≡ (execute t.id r.1).1
      go (ok u, s') e spent =
          let same : u ≡ t = cc in
          ap
            (λ (x : Task).
              (store.update_task_state x.id (final_state store (execute x.id s').0)
                x.lease_generation (execute x.id s').1).1)
            same
          ∙ ap (λ (r : Result (Unit {0}) × State). r.1)
              (spent (final_state store (execute t.id s').0))
      go (err x, s') e spent = absurd (cc)
