-- ===== src/Worker/Life.antt =====
-- internal/worker/worker.go, `Start` and `Stop`: the goroutine of a worker, and those who stop it.
use bqcubbit.Base.{
  ℕ, ◌≤◌, ◌<◌, Bool, Bool-cases, true, false, ◌||◌, Option, none, some, ◌≡◌, ◌≢◌, ◌⊎◌, refl, inl,
  inr, arith, if◌then◌else◌,
}

-- Where the goroutine is: not in `Start` yet, at the select of its loop, in `runOnce`, or back from
-- `Start`.
pub data Phase : Type 0 where
  not_started at_select in_run returned : Phase

-- `running`, whether `stopCh` is closed, and whether the context is done.
pub record Life : Type 0 where
  pub running : Bool
  pub stop_closed : Bool
  pub is_done : Bool
  pub phase : Phase

-- `New`
abbrev pub new_worker : Life
new_worker = record { running = false; stop_closed = false; is_done = false; phase = not_started }

-- The first lines of `Start`.
abbrev pub begin_start : Life → Life
begin_start l = record l { running = true; phase = at_select }

-- `Stop`, `none` where it closes a closed channel, which panics.
unfoldable pub stop : Life → Option Life
stop l =
    if l.running
    then (if l.stop_closed then none else some (record l { running = false; stop_closed = true }))
    else some l

-- The case of the select that is ready, of which `default` is taken if there is no other.
abbrev pub must_return : Life → Bool
must_return l = l.stop_closed || l.is_done

-- A step of the goroutine, which `Pool` starts once.
pub data OwnStep (l l' : Life) : Type 0 where
  starts : l.phase ≡ not_started → l' ≡ begin_start l → OwnStep l l'
  returns :
      l.phase ≡ at_select → must_return l ≡ true → l' ≡ record l { phase = returned } → OwnStep l l'
  runs :
      l.phase ≡ at_select → must_return l ≡ false → l' ≡ record l { phase = in_run } → OwnStep l l'
  run_ends : l.phase ≡ in_run → l' ≡ record l { phase = at_select } → OwnStep l l'

-- A step of the goroutine or of others.
pub data LifeStep (l l' : Life) : Type 0 where
  steps : OwnStep l l' → LifeStep l l'
  stops : stop l ≡ some l' → LifeStep l l'
  cancels : l' ≡ record l { is_done = true } → LifeStep l l'

pub data Lives (l : Life) : Life → Type 0 where
  here : Lives l l
  next : {m n : Life} → Lives l m → LifeStep m n → Lives l n

-- The goroutine takes steps while nobody else does.
pub data Proceeds : Life → Life → Type 0 where
  arrived : {l : Life} → Proceeds l l
  proceeds : {l m n : Life} → OwnStep l m → Proceeds m n → Proceeds l n

-- How much of its loop a worker has before it that was told to return.
unfoldable pub left_over : Phase → ℕ
left_over not_started = 3
left_over in_run = 2
left_over at_select = 1
left_over returned = 0

-- A worker that runs is not stopped, and neither is one that has not started.
record IsFresh (l : Life) : Type 0 where
  open_channel : l.running ≡ true → l.stop_closed ≡ false
  not_begun : l.phase ≡ not_started → (l.running ≡ false) × (l.stop_closed ≡ false)

stop_step :
    (l l' : Life)
    → stop l ≡ some l'
    → (l' ≡ l)
      ⊎ ((l.running ≡ true)
          × (l.stop_closed ≡ false)
          × (l' ≡ record l { running = false; stop_closed = true }))
unfolding stop
stop_step l l' e = elim (Bool-cases l.running) [
  | inr idle ↦ inl (cc (rw idle at e))
  | inl run ↦ elim (Bool-cases l.stop_closed) [
    | inl closed ↦ cc (rw closed at (rw run at e))
    | inr opened ↦ inr (run, opened, cc (rw opened at (rw run at e)))
  ]
]

step-IsFresh : (l l' : Life) → IsFresh l → LifeStep l l' → IsFresh l'
step-IsFresh l l' f (steps (starts p e)) =
    rw e (record { open_channel = λ h. (f.not_begun p).1; not_begun = λ h. absurd (cc) })
step-IsFresh l l' f (steps (returns p m e)) =
    rw e (record { open_channel = f.open_channel; not_begun = λ h. absurd (cc) })
step-IsFresh l l' f (steps (runs p m e)) =
    rw e (record { open_channel = f.open_channel; not_begun = λ h. absurd (cc) })
step-IsFresh l l' f (steps (run_ends p e)) =
    rw e (record { open_channel = f.open_channel; not_begun = λ h. absurd (cc) })
step-IsFresh l l' f (cancels e) =
    rw e (record { open_channel = f.open_channel; not_begun = f.not_begun })
step-IsFresh l l' f (stops e) = elim (stop_step l l' e) [
  | inl same ↦ rw same f
  | inr (run, opened, same) ↦ rw same (record {
    open_channel = λ h. absurd (cc);
    not_begun = λ h. absurd (cc (run, (f.not_begun h).0));
  })
]

Lives-IsFresh : {l l' : Life} → IsFresh l → Lives l l' → IsFresh l'
Lives-IsFresh f here = f
Lives-IsFresh {l} f (next {m} {n} r s) = step-IsFresh m n (Lives-IsFresh f r) s

-- What a worker that was told to return keeps.
record IsLeaving (l l' : Life) : Type 0 where
  told : l'.stop_closed ≡ true
  less_left : left_over l'.phase ≤ left_over l.phase

step_leaves : (l l' : Life) → IsFresh l → l.stop_closed ≡ true → LifeStep l l' → IsLeaving l l'
unfolding left_over
step_leaves l l' f closed (steps (starts p e)) = absurd (cc (closed, (f.not_begun p).1))
step_leaves l l' f closed (steps (returns p m e)) =
    rw e (record { told = closed; less_left = omega arith })
step_leaves l l' f closed (steps (runs p m e)) = absurd (ground (arith, closed, m))
step_leaves l l' f closed (steps (run_ends p e)) =
    rw (e, p) (record { told = closed; less_left = omega arith })
step_leaves l l' f closed (cancels e) = rw e (record { told = closed; less_left = omega arith })
step_leaves l l' f closed (stops e) = elim (stop_step l l' e) [
  | inl same ↦ rw same (record { told = closed; less_left = omega arith })
  | inr (run, opened, same) ↦ absurd (cc (closed, opened))
]

Lives-IsLeaving : {l l' : Life} → IsFresh l → l.stop_closed ≡ true → Lives l l' → IsLeaving l l'
Lives-IsLeaving f closed here = record { told = closed; less_left = omega arith }
Lives-IsLeaving {l} f closed (next {m} {n} r s) =
    let before = Lives-IsLeaving f closed r in
    let after = step_leaves m n (Lives-IsFresh f r) before.told s in
    record { told = after.told; less_left = omega (arith, before.less_left, after.less_left) }

new_worker-IsFresh : IsFresh new_worker
new_worker-IsFresh = record { open_channel = λ h. refl; not_begun = λ h. (refl, refl) }

not_closed_twice : (l : Life) → IsFresh l → stop l ≢ none
unfolding stop
not_closed_twice l f e = elim (Bool-cases l.running) [
  | inr idle ↦ cc (rw (idle, stop) at e)
  | inl run ↦ cc (rw (f.open_channel run, stop) at (rw (run, stop) at e))
]

early_stop : (l : Life) → IsFresh l → (l.phase ≢ not_started) ⊎ (stop l ≡ some l)
unfolding stop
early_stop l f = elim (Bool-cases l.running) [
  | inr idle ↦ inr (rw idle refl)
  | inl run ↦ inl (λ p. cc (run, (f.not_begun p).0))
]

-- A step of the goroutine of a stopped worker leaves it less to do.
OwnStep-leaves :
    (l m : Life)
    → IsFresh l
    → l.stop_closed ≡ true
    → OwnStep l m
    → left_over m.phase < left_over l.phase
unfolding left_over
OwnStep-leaves l m f closed (starts p e) = absurd (cc (closed, (f.not_begun p).1))
OwnStep-leaves l m f closed (returns p r e) = rw (e, p) (omega arith)
OwnStep-leaves l m f closed (runs p r e) = absurd (ground (arith, closed, r))
OwnStep-leaves l m f closed (run_ends p e) = rw (e, p) (omega arith)

select_returns :
    (l : Life)
    → l.stop_closed ≡ true
    → l.phase ≡ at_select
    → (g : Life) × Proceeds l g × (g.phase ≡ returned)
select_returns l closed at = (
  record l { phase = returned },
  proceeds {m = record l { phase = returned }} (returns at (rw closed refl) refl) arrived,
  refl,
)

run_returns :
    (l : Life)
    → l.stop_closed ≡ true
    → l.phase ≡ in_run
    → (g : Life) × Proceeds l g × (g.phase ≡ returned)
run_returns l closed at =
    let (g, way, back) = select_returns (record l { phase = at_select }) closed refl in
    (g, proceeds {m = record l { phase = at_select }} (run_ends at refl) way, back)

-- A stopped worker returns by its own steps.
will_return :
    (l : Life) → IsFresh l → l.stop_closed ≡ true → (g : Life) × Proceeds l g × (g.phase ≡ returned)
will_return l f closed = by_phase l.phase refl
  where
    by_phase : (p : Phase) → l.phase ≡ p → (g : Life) × Proceeds l g × (g.phase ≡ returned)
    by_phase not_started e = absurd (cc (closed, (f.not_begun e).1))
    by_phase at_select e = select_returns l closed e
    by_phase in_run e = run_returns l closed e
    by_phase returned e = (l, arrived, e)

-- A stopped worker has begun no further run since `l`, each step that its goroutine can take leaves
-- it less to do, and it can take steps until it has returned.
pub record IsReturning (l l' : Life) : Type 0 where
  pub no_more : left_over l'.phase ≤ left_over l.phase
  pub less : (m : Life) → OwnStep l' m → left_over m.phase < left_over l'.phase
  pub end : (g : Life) × Proceeds l' g × (g.phase ≡ returned)

Lives-IsReturning : (l l' : Life) → IsFresh l → l.stop_closed ≡ true → Lives l l' → IsReturning l l'
Lives-IsReturning l l' f closed r =
    let leaving = Lives-IsLeaving f closed r in
    let fresh = Lives-IsFresh f r in
    record {
      no_more = leaving.less_left;
      less = λ m s. OwnStep-leaves l' m fresh leaving.told s;
      end = will_return l' fresh leaving.told;
    }

-- A worker that `Start` runs once, whoever calls `Stop` on it and however often: `Stop` never closes
-- the channel twice. Once it is closed, the worker begins no further run at any later time; each step
-- of its goroutine, of which the end of the run that it is in is one, leaves it less to do, and by
-- such steps it returns. A `Stop` that comes before `Start` changes nothing.
pub stop_exact :
    (l l' : Life)
    → Lives new_worker l
    → Lives l l'
    → (stop l ≢ none)
      × ((l.stop_closed ≡ false) ⊎ IsReturning l l')
      × ((l.phase ≢ not_started) ⊎ (stop l ≡ some l))
stop_exact l l' r r' =
    let f = Lives-IsFresh new_worker-IsFresh r in
    (
      not_closed_twice l f,
      elim (Bool-cases l.stop_closed) [
        | inl closed ↦ inr (Lives-IsReturning l l' f closed r')
        | inr opened ↦ inl opened
      ],
      early_stop l f,
    )
