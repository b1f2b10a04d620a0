-- ===== src/State/Sqlite/Tasks/Select.antt =====
-- The rows that ORDER BY … LIMIT 1 selects: the oldest task, and the one with the longest lease.
use mathlib.Core.List.{Memᴰ}
use bqcubbit.Base.{
  ◌≤◌, ◌<◌, Bool-cases, Option-cases, none, some, List, [], ◌∷◌, ◌≡◌, ◌⊎◌, refl, sym, ap, ◌∙◌, inl,
  inr, arith, ltb, if◌then◌else◌,
}
use bqcubbit.State.{Task}
use bqcubbit.State.Sqlite.Tasks.{oldest, longest_lease, lease_key}

pub oldest_mem : (ts : List Task) (t : Task) → oldest ts ≡ some t → Memᴰ t ts
unfolding oldest
oldest_mem [] t e = absurd (cc)
oldest_mem (u ∷ ts) t e = elim (Option-cases (oldest ts)) [
  | inl alone ↦ Memᴰ.head (ground arith)
  | inr (v, found) ↦ elim (Bool-cases (ltb v.created_at u.created_at)) [
    | inl older ↦ Memᴰ.tail (oldest_mem ts t (ground arith))
    | inr newer ↦ Memᴰ.head (ground arith)
  ]
]

pub oldest_empty : (ts : List Task) → oldest ts ≡ none → ts ≡ []
unfolding oldest
oldest_empty [] e = refl
oldest_empty (u ∷ ts) e = absurd (ground arith)

pub oldest-le :
    (ts : List Task) (t u : Task) → oldest ts ≡ some t → Memᴰ u ts → t.created_at ≤ u.created_at
unfolding oldest
oldest-le [] t u e m = elim m [ ]
oldest-le (v ∷ ts) t u e (Memᴰ.head same) =
    let at : u.created_at ≡ v.created_at = ap (λ (x : Task). x.created_at) same in ground arith
oldest-le (v ∷ ts) t u e (Memᴰ.tail m) = elim (Option-cases (oldest ts)) [
  | inl alone ↦ elim (let m' : Memᴰ u [] = rw (oldest_empty ts alone) at m in m') [ ]
  | inr (w, found) ↦ let le : w.created_at ≤ u.created_at = oldest-le ts w u found m in ground arith
]

longest_lease_mem : (ts : List Task) (t : Task) → longest_lease ts ≡ some t → Memᴰ t ts
unfolding longest_lease
longest_lease_mem [] t e = absurd (cc)
longest_lease_mem (u ∷ ts) t e = elim (Option-cases (longest_lease ts)) [
  | inl alone ↦ Memᴰ.head (ground arith)
  | inr (v, found) ↦ elim (Bool-cases (ltb (lease_key u) (lease_key v))) [
    | inl longer ↦ Memᴰ.tail (longest_lease_mem ts t (ground arith))
    | inr shorter ↦ Memᴰ.head (ground arith)
  ]
]

-- A row whose lease outlasts all others is the one that is fetched.
pub longest_lease_unique :
    (ts : List Task) (t : Task)
    → Memᴰ t ts
    → ((u : Task) → Memᴰ u ts → (u ≡ t) ⊎ (lease_key u < lease_key t))
    → longest_lease ts ≡ some t
unfolding longest_lease
longest_lease_unique [] t m h = elim m [ ]
longest_lease_unique (v ∷ ts) t (Memᴰ.head same) h = elim (Option-cases (longest_lease ts)) [
  | inl alone ↦ ground (arith, same)
  | inr (w, found) ↦ elim (h w (Memᴰ.tail (longest_lease_mem ts w found))) [
    | inl eq ↦ rw found (step_eq w eq)
    | inr less ↦ rw found (step_less w less)
  ]
]
  where
    step_eq : (w : Task) → w ≡ t → some (if ltb (lease_key v) (lease_key w) then w else v) ≡ some t
    step_eq w eq =
        let k : lease_key v ≡ lease_key w = ap (λ (x : Task). lease_key x) (sym same ∙ sym eq) in
        ground (arith, same)

    step_less :
        (w : Task)
        → lease_key w < lease_key t
        → some (if ltb (lease_key v) (lease_key w) then w else v) ≡ some t
    step_less w less =
        let k : lease_key t ≡ lease_key v = ap (λ (x : Task). lease_key x) same in
        ground (arith, same)
longest_lease_unique (v ∷ ts) t (Memᴰ.tail m) h =
    rw (longest_lease_unique ts t m (λ u n. h u (Memᴰ.tail n))) (step (h v (Memᴰ.head refl)))
  where
    step :
        (v ≡ t) ⊎ (lease_key v < lease_key t)
        → some (if ltb (lease_key v) (lease_key t) then t else v) ≡ some t
    step (inl eq) = ground arith
    step (inr less) = ground arith
