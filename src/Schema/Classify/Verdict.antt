-- ===== src/Schema/Classify/Verdict.antt =====
-- What `classifyChanges` decides: whether every change keeps old rows readable.
use bqcubbit.Base.{
  subst, not, ◌&&◌, Text, All, str_eq, eq_of_str_eq, Bool, Bool-cases, false, Option, none, some,
  List, [], ◌∷◌, ◌≡◌, ◌≢◌, ◌↔◌, ◌⊎◌, inl, inr, refl, arith,
}
use bqcubbit.Schema.{Field}
use bqcubbit.Schema.Diff.{FieldChangeType, field_add, field_drop, field_type_change, FieldChange}
use bqcubbit.Schema.Classify.{
  ChangeType, or_nullable, nullable, repeated, unchanged, additive, breaking, breaks, classify_from,
  classify_changes,
}
use bqcubbit.Schema.Classify.Widening.{Widens, is_type_widening_exact}

-- Rows without the column are still rows: its mode is empty, NULLABLE or REPEATED.
abbrev pub AllowsMissing : Text → Type 0
AllowsMissing mode = (mode ≡ []) ⊎ (mode ≡ nullable) ⊎ (mode ≡ repeated)

-- A change after which the old rows still fit.
pub data IsSafe (c : FieldChange) : Type 0 where
  new_column :
      (g : Field) → c.type ≡ field_add → c.after ≡ some g → AllowsMissing g.head.mode → IsSafe c
  wider :
      (f g : Field)
      → c.type ≡ field_type_change
      → c.before ≡ some f
      → c.after ≡ some g
      → Widens f.head.type g.head.type
      → IsSafe c

-- The test of the source on the mode of a new column.
refuses_mode : Text → Bool
refuses_mode mode = let m = or_nullable mode in not (str_eq m nullable) && not (str_eq m repeated)

refuses_mode_sound : (m : Text) → refuses_mode m ≡ false → AllowsMissing m
unfolding refuses_mode or_nullable
refuses_mode_sound m h = elim (Bool-cases (str_eq m [])) [
  | inl empty ↦ inl (eq_of_str_eq m [] empty)
  | inr given ↦ elim (Bool-cases (str_eq m nullable)) [
    | inl same ↦ inr (inl (eq_of_str_eq m nullable same))
    | inr other ↦ inr (inr (eq_of_str_eq m repeated (ground arith)))
  ]
]

refuses_mode_complete : (m : Text) → AllowsMissing m → refuses_mode m ≡ false
unfolding refuses_mode or_nullable str_eq
refuses_mode_complete m (inl e) = rw e
refuses_mode_complete m (inr (inl e)) = rw e
refuses_mode_complete m (inr (inr e)) = rw e

breaks_sound :
    (c : FieldChange) (t : FieldChangeType) (b a : Option Field)
    → c.type ≡ t
    → c.before ≡ b
    → c.after ≡ a
    → breaks t b a ≡ false
    → IsSafe c
unfolding breaks
breaks_sound c field_drop b a e e' e'' h = cc
breaks_sound c field_type_change none a e e' e'' h = cc
breaks_sound c field_type_change (some f) none e e' e'' h = cc
breaks_sound c field_type_change (some f) (some g) e e' e'' h =
    wider f g e e' e'' ((is_type_widening_exact f g).0 (ground arith))
breaks_sound c field_add b none e e' e'' h = cc
breaks_sound c field_add b (some g) e e' e'' h =
    new_column g e e'' (refuses_mode_sound g.head.mode (unfold refuses_mode in h))

breaks_complete : (c : FieldChange) → IsSafe c → breaks c.type c.before c.after ≡ false
breaks_complete c (new_column g e e'' m) =
    rw (e, e'') (unfold breaks in unfold refuses_mode in refuses_mode_complete g.head.mode m)
breaks_complete c (wider f g e e' e'' w) =
    rw (e, e', e'') (unfold breaks in rw ((is_type_widening_exact f g).1 w))

classify_from_sound : (cs : List FieldChange) → classify_from cs ≡ additive → All IsSafe cs
unfolding classify_from
classify_from_sound [] h = tt
classify_from_sound (c ∷ cs) h = elim (Bool-cases (breaks c.type c.before c.after)) [
  | inl bad ↦ absurd (cc (rw bad at h))
  | inr fine ↦ (
    breaks_sound c c.type c.before c.after refl refl refl fine,
    classify_from_sound cs (rw fine at h),
  )
]

classify_from_complete : (cs : List FieldChange) → All IsSafe cs → classify_from cs ≡ additive
unfolding classify_from
classify_from_complete [] h = refl
classify_from_complete (c ∷ cs) h = rw (breaks_complete c h.0) (classify_from_complete cs h.1)

classify_from_cases :
    (cs : List FieldChange) → (classify_from cs ≡ additive) ⊎ (classify_from cs ≡ breaking)
unfolding classify_from
classify_from_cases [] = inl refl
classify_from_cases (c ∷ cs) = ground (arith, classify_from_cases cs)

-- The verdict that a list of changes deserves.
abbrev pub IsVerdict : List FieldChange → ChangeType → Type 0
IsVerdict cs unchanged = cs ≡ []
IsVerdict cs additive = (cs ≢ []) × All IsSafe cs
IsVerdict cs breaking = ¬ (All IsSafe cs)

verdict_unique : (cs : List FieldChange) (v : ChangeType) → IsVerdict cs v → classify_changes cs ≡ v
unfolding classify_changes
verdict_unique [] unchanged h = refl
verdict_unique [] additive h = absurd (h.0 refl)
verdict_unique [] breaking h = absurd (h tt)
verdict_unique (c ∷ cs) unchanged h = cc
verdict_unique (c ∷ cs) additive h = classify_from_complete (c ∷ cs) h.1
verdict_unique (c ∷ cs) breaking h = elim (classify_from_cases (c ∷ cs)) [
  | inl safe ↦ absurd (h (classify_from_sound (c ∷ cs) safe))
  | inr bad ↦ bad
]

classify_changes-IsVerdict : (cs : List FieldChange) → IsVerdict cs (classify_changes cs)
unfolding classify_changes
classify_changes-IsVerdict [] = refl
classify_changes-IsVerdict (c ∷ cs) = elim (classify_from_cases (c ∷ cs)) [
  | inl safe ↦ rw safe (λ e. cc, classify_from_sound (c ∷ cs) safe)
  | inr bad ↦ rw bad (λ all. cc (bad, classify_from_complete (c ∷ cs) all))
]

-- `classifyChanges` returns a verdict exactly when the changes deserve it: NONE for no change,
-- ADDITIVE when there are changes and each is a new column that old rows may miss or a widening of
-- a type, BREAKING when one is neither. So the order of the changes plays no part.
pub classify_changes_exact :
    (cs : List FieldChange) (v : ChangeType) → (classify_changes cs ≡ v) ↔ IsVerdict cs v
classify_changes_exact cs v =
    (λ e. subst (IsVerdict cs) e (classify_changes-IsVerdict cs), verdict_unique cs v)
