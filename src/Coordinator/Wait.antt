-- ===== src/Coordinator/Wait.antt =====
-- When the coordinator stops waiting.
use bqcubbit.Base.{Bool-cases, true, List, [], ◌∷◌, ◌++◌, ◌≡◌, ◌↔◌, ◌⊎◌, inl, inr, refl, ap, ◌∙◌}
use bqcubbit.State.Sqlite.{Store}
use bqcubbit.Coordinator.{is_idle, wait_for_completion}

-- Two idle ticks in a row.
abbrev pub IdleTwice : List Store → Type 0
IdleTwice ticks =
    (before after : List Store) × (s t : Store) × (ticks ≡ before ++ s ∷ t ∷ after)
    × (is_idle s ≡ true)
    × (is_idle t ≡ true)

cons-IdleTwice : (u : Store) (ticks : List Store) → IdleTwice ticks → IdleTwice (u ∷ ticks)
cons-IdleTwice u ticks (before, after, s, t, split, i, j) =
    (u ∷ before, after, s, t, ap (λ (xs : List Store). u ∷ xs) split, i, j)

-- The first tick is idle.
IdleHead : List Store → Type 0
IdleHead ticks = (t : Store) × (after : List Store) × (ticks ≡ t ∷ after) × (is_idle t ≡ true)

wait_sound :
    (ticks : List Store)
    → (wait_for_completion 0 ticks ≡ true → IdleTwice ticks)
      × (wait_for_completion 1 ticks ≡ true → IdleHead ticks ⊎ IdleTwice ticks)
unfolding wait_for_completion IdleHead
wait_sound [] = (λ e. absurd (cc), λ e. absurd (cc))
wait_sound (u ∷ ticks) =
    let (from_0, from_1) = wait_sound ticks in
    elim (Bool-cases (is_idle u)) [
      | inl idle ↦ (
        λ e. elim (from_1 (rw (idle, wait_for_completion) at e)) [
          | inl (t, after, split, j) ↦
              ([], after, u, t, ap (λ (xs : List Store). u ∷ xs) split, idle, j)
          | inr twice ↦ cons-IdleTwice u ticks twice
        ],
        λ e. inl (u, ticks, refl, idle),
      )
      | inr busy ↦ (
        λ e. cons-IdleTwice u ticks (from_0 (rw (busy, wait_for_completion) at e)),
        λ e. inr (cons-IdleTwice u ticks (from_0 (rw (busy, wait_for_completion) at e))),
      )
    ]

wait_complete :
    (before after : List Store) (s t : Store)
    → is_idle s ≡ true
    → is_idle t ≡ true
    → (wait_for_completion 0 (before ++ s ∷ t ∷ after) ≡ true)
      × (wait_for_completion 1 (before ++ s ∷ t ∷ after) ≡ true)
unfolding wait_for_completion
wait_complete [] after s t i j = (rw (i, wait_for_completion, j), rw (i, wait_for_completion))
wait_complete (u ∷ before) after s t i j =
    let (from_0, from_1) = wait_complete before after s t i j in
    elim (Bool-cases (is_idle u)) [
      | inl idle ↦ (rw (idle, wait_for_completion) from_1, rw (idle, wait_for_completion))
      | inr busy ↦ (rw (busy, wait_for_completion) from_0, rw (busy, wait_for_completion) from_0)
    ]

-- The coordinator stops waiting, its context aside, exactly when two ticks in a row see no task
-- that is pending or assigned.
pub wait_for_completion_exact :
    (ticks : List Store) → (wait_for_completion 0 ticks ≡ true) ↔ IdleTwice ticks
wait_for_completion_exact ticks = (
  (wait_sound ticks).0,
  λ (before, after, s, t, split, i, j).
      ap (wait_for_completion 0) split ∙ (wait_complete before after s t i j).0,
)
