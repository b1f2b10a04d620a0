-- ===== src/Worker/Pool.antt =====
-- internal/worker/pool.go: the workers of a pool, by the numbers in their names.
use bqcubbit.Base.{
  ℕ, zero, suc, ◌+◌, Bool-cases, true, false, List, [], ◌∷◌, ◌++◌, ◌≡◌, refl, sym, ap, subst, ◌∙◌,
  inl, inr, arith, ltb, length, length-append, if◌then◌else◌,
}

pub record Pool : Type 0 where
  pub min_workers : ℕ
  pub max_workers : ℕ
  pub workers : List ℕ

-- `rounds` rounds of a loop that appends the worker `i` and increments `i`.
unfoldable pub count_from : ℕ → ℕ → List ℕ
count_from zero i = []
count_from (suc rounds) i = i ∷ count_from rounds (i + 1)

-- `Start`, the goroutines of the workers aside.
unfoldable pub start : Pool → Pool
unfolding count_from
start p = record p { workers = p.workers ++ count_from p.min_workers 0 }

-- The loop of `ScaleUp`, by the number `n` of workers that may still be added.
unfoldable pub scale_loop : ℕ → ℕ → ℕ → List ℕ → List ℕ
scale_loop max_workers zero i workers = workers
scale_loop max_workers (suc n) i workers = elim (ltb i max_workers) [
  | true ↦ scale_loop max_workers n (i + 1) (workers ++ i ∷ [])
  | false ↦ workers
]

unfoldable pub scale_up : ℕ → Pool → Pool
unfolding scale_loop
scale_up n p = record p { workers = scale_loop p.max_workers n (length p.workers) p.workers }

-- The workers are numbered from 0, each number once.
abbrev pub IsNumbered : List ℕ → Type 0
IsNumbered ws = ws ≡ count_from (length ws) 0

count_from_append : (m i : ℕ) → count_from m i ++ (i + m) ∷ [] ≡ count_from (suc m) i
unfolding count_from
count_from_append zero i = ap (λ (k : ℕ). k ∷ []) (omega arith)
count_from_append (suc m) i =
    ap (λ (xs : List ℕ). i ∷ xs)
      (ap (λ (k : ℕ). count_from m (i + 1) ++ k ∷ []) (omega arith) ∙ count_from_append m (i + 1))

append-IsNumbered : (ws : List ℕ) → IsNumbered ws → IsNumbered (ws ++ length ws ∷ [])
append-IsNumbered ws h =
    ap (λ (xs : List ℕ). xs ++ length ws ∷ []) h
    ∙ ap (λ (k : ℕ). count_from (length ws) 0 ++ k ∷ []) (omega arith)
    ∙ count_from_append (length ws) 0
    ∙ ap (λ (k : ℕ). count_from k 0) (omega (arith, length-append ws (length ws ∷ [])))

-- The size that `n` more workers lead to.
abbrev pub scaled : ℕ → ℕ → ℕ → ℕ
scaled max_workers n m =
    if ltb max_workers (m + n) then (if ltb m max_workers then max_workers else m) else m + n

scale_loop_exact :
    (max_workers n i : ℕ) (ws : List ℕ)
    → i ≡ length ws
    → IsNumbered ws
    → IsNumbered (scale_loop max_workers n i ws)
      × (length (scale_loop max_workers n i ws) ≡ scaled max_workers n (length ws))
unfolding scale_loop
scale_loop_exact max_workers zero i ws at h = (h, ground arith)
scale_loop_exact max_workers (suc n) i ws at h = elim (Bool-cases (ltb i max_workers)) [
  | inl room ↦
      let grown : length (ws ++ i ∷ []) ≡ length ws + 1 = length-append ws (i ∷ []) in
      let numbered : IsNumbered (ws ++ i ∷ []) =
        subst (λ (k : ℕ). IsNumbered (ws ++ k ∷ [])) (sym at) (append-IsNumbered ws h) in
      let (m, l) =
        scale_loop_exact max_workers n (i + 1) (ws ++ i ∷ []) (omega (arith, at, grown)) numbered in
      (rw (room, scale_loop) m, rw (room, scale_loop) (l ∙ ground (arith, grown)))
  | inr full ↦ (rw (full, scale_loop) h, rw (full, scale_loop) (ground arith))
]

-- `ScaleUp` of a pool whose workers are numbered from 0 adds the next numbers, as many as are asked
-- for but none beyond the maximum of the pool, and removes none.
pub scale_up_exact :
    (n : ℕ) (p : Pool)
    → IsNumbered p.workers
    → IsNumbered (scale_up n p).workers
      × (length (scale_up n p).workers ≡ scaled p.max_workers n (length p.workers))
unfolding scale_up
scale_up_exact n p h = scale_loop_exact p.max_workers n (length p.workers) p.workers refl h
