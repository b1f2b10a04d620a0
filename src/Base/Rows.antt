-- ===== src/Base/Rows.antt =====
-- A table as a list of rows, and the statements of SQL on it.
use mathlib.Core.List.{Memᴰ}
use Prim.Native.Nat.{ℕ, ◌+◌, ◌<◌}
use mathlib.Core.Path.{◌≡◌, refl, ap, sym, ◌∙◌}
use mathlib.Core.Logic.{inl, inr}
use mathlib.Core.Bool.{Bool, true, false}
use mathlib.Core.Option.{Option, none, some}
use mathlib.Core.List.{List, [], ◌∷◌, ◌++◌}
use native.Mathlib.Omega.{arith}
use bqcubbit.Base.Tests.{if◌then◌else◌, Bool-cases}
use bqcubbit.Base.Lists.{keep, length}

module _ {ℓ} {A : Type ℓ} where
  -- UPDATE … SET … WHERE
  abbrev pub update_where : (A → Bool) → (A → A) → List A → List A
  update_where p f [] = []
  update_where p f (x ∷ xs) = (if p x then f x else x) ∷ update_where p f xs

  -- The number of rows that a WHERE clause selects.
  abbrev pub count_where : (A → Bool) → List A → ℕ
  count_where p [] = 0
  count_where p (x ∷ xs) = (if p x then 1 else 0) + count_where p xs

  -- SELECT … WHERE … LIMIT 1
  abbrev pub find_where : (A → Bool) → List A → Option A
  find_where p [] = none
  find_where p (x ∷ xs) = if p x then some x else find_where p xs

  pub length-keep-eq-count_where :
      (p : A → Bool) (xs : List A) → length (keep p xs) ≡ count_where p xs
  length-keep-eq-count_where p [] = refl
  length-keep-eq-count_where p (x ∷ xs) = ground (arith, length-keep-eq-count_where p xs)

  pub find_where_sound :
      (p : A → Bool) (xs : List A) {x : A} → find_where p xs ≡ some x → p x ≡ true
  find_where_sound p [] e = absurd (ground arith)
  find_where_sound p (y ∷ xs) {x} e = ground (arith, find_where_sound p xs {x = x})

  pub find_where-append :
      (p : A → Bool) (xs : List A) (x : A)
      → find_where p xs ≡ none
      → p x ≡ true
      → find_where p (xs ++ x ∷ []) ≡ some x
  find_where-append p [] x e h = rw h
  find_where-append p (y ∷ xs) x e h = ground (arith, find_where-append p xs x)

  pub find_where-append_some :
      (p : A → Bool) (xs ys : List A) (x : A)
      → find_where p xs ≡ some x
      → find_where p (xs ++ ys) ≡ some x
  find_where-append_some p [] ys x e = absurd (ground arith)
  find_where-append_some p (y ∷ xs) ys x e = ground (arith, find_where-append_some p xs ys x)

  pub count_where_zero_of_none :
      (p : A → Bool) (xs : List A) → find_where p xs ≡ none → count_where p xs ≡ 0
  count_where_zero_of_none p [] e = refl
  count_where_zero_of_none p (x ∷ xs) e = ground (arith, count_where_zero_of_none p xs)

  pub count_where_pos_of_some :
      (p : A → Bool) (xs : List A) (x : A) → find_where p xs ≡ some x → 0 < count_where p xs
  count_where_pos_of_some p [] x e = absurd (ground arith)
  count_where_pos_of_some p (y ∷ xs) x e = ground (arith, count_where_pos_of_some p xs x)

  pub update_where_of_none :
      (p : A → Bool) (f : A → A) (xs : List A) → find_where p xs ≡ none → update_where p f xs ≡ xs
  update_where_of_none p f [] e = refl
  update_where_of_none p f (x ∷ xs) e = ground (arith, update_where_of_none p f xs)

  -- An update that no selection reads leaves the selection as it was.
  pub find_where-update :
      (q p : A → Bool) (f : A → A) (xs : List A)
      → ((x : A) → q (f x) ≡ q x)
      → find_where q (update_where p f xs)
        ≡ (elim (find_where q xs) [ none ↦ none | some x ↦ some (if p x then f x else x) ])
  find_where-update q p f [] h = refl
  find_where-update q p f (x ∷ xs) h = ground (arith, find_where-update q p f xs h, h x)

  -- No two rows have one key: `same` is the test of a UNIQUE constraint.
  abbrev pub Distinct : (A → A → Bool) → List A → Type ℓ
  Distinct same [] = Unit
  Distinct same (x ∷ xs) = (find_where (same x) xs ≡ none) × Distinct same xs

  find_where-map_key :
      (same : A → A → Bool) (p : A → Bool) (f : A → A) (x : A) (xs : List A)
      → ((y : A) → same x (f y) ≡ same x y)
      → find_where (same x) xs ≡ none
      → find_where (same x) (update_where p f xs) ≡ none
  find_where-map_key same p f x [] h e = refl
  find_where-map_key same p f x (y ∷ xs) h e =
      ground (arith, find_where-map_key same p f x xs h, h y)

  find_where-other_key :
      (same : A → A → Bool) (f : A → A) (x : A) (xs : List A)
      → ((y : A) → same (f x) y ≡ same x y)
      → find_where (same x) xs ≡ none
      → find_where (same (f x)) xs ≡ none
  find_where-other_key same f x [] h e = refl
  find_where-other_key same f x (y ∷ xs) h e =
      ground (arith, find_where-other_key same f x xs h, h y)

  -- An update that leaves the keys alone keeps them distinct.
  pub update_where-Distinct :
      (same : A → A → Bool) (p : A → Bool) (f : A → A) (xs : List A)
      → ((x y : A) → same x (f y) ≡ same x y)
      → ((x y : A) → same (f x) y ≡ same x y)
      → Distinct same xs
      → Distinct same (update_where p f xs)
  update_where-Distinct same p f [] h k d = tt
  update_where-Distinct same p f (x ∷ xs) h k d = (
    elim (Bool-cases (p x)) [
      | inl yes' ↦
          rw yes'
            (find_where-other_key same f x _ (k x) (find_where-map_key same p f x xs (h x) d.0))
      | inr no' ↦ rw no' (find_where-map_key same p f x xs (h x) d.0)
    ],
    update_where-Distinct same p f xs h k d.1,
  )

  find_where-keep_none :
      (q p : A → Bool) (xs : List A) → find_where q xs ≡ none → find_where q (keep p xs) ≡ none
  find_where-keep_none q p [] e = refl
  find_where-keep_none q p (x ∷ xs) e = ground (arith, find_where-keep_none q p xs)

  pub keep-Distinct :
      (same : A → A → Bool) (p : A → Bool) (xs : List A)
      → Distinct same xs
      → Distinct same (keep p xs)
  keep-Distinct same p [] d = tt
  keep-Distinct same p (x ∷ xs) d =
      ground (arith, find_where-keep_none (same x) p xs, keep-Distinct same p xs)

  find_where-append_none :
      (q : A → Bool) (xs : List A) (y : A)
      → find_where q xs ≡ none
      → q y ≡ false
      → find_where q (xs ++ y ∷ []) ≡ none
  find_where-append_none q [] y e h = rw h
  find_where-append_none q (x ∷ xs) y e h = ground (arith, find_where-append_none q xs y)

  -- An INSERT of a row with a new key.
  pub append-Distinct :
      (same : A → A → Bool) (xs : List A) (y : A)
      → ((x : A) → same x y ≡ same y x)
      → Distinct same xs
      → find_where (same y) xs ≡ none
      → Distinct same (xs ++ y ∷ [])
  append-Distinct same [] y h d e = (refl, tt)
  append-Distinct same (x ∷ xs) y h d e = (
    find_where-append_none (same x) xs y d.0 (ground (arith, h x)),
    append-Distinct same xs y h d.1 (ground arith),
  )

  pub mem_keep :
      (p : A → Bool) (ts : List A) (t : A) → Memᴰ t (keep p ts) → (p t ≡ true) × Memᴰ t ts
  mem_keep p [] t m = elim m [ ]
  mem_keep p (u ∷ ts) t m = elim (Bool-cases (p u)) [
    | inl pass ↦ elim (let m' : Memᴰ t (u ∷ keep p ts) = rw pass at m in m') [
      | Memᴰ.head e ↦ (rw e pass, Memᴰ.head e)
      | Memᴰ.tail n ↦ let (q, k) = mem_keep p ts t n in (q, Memᴰ.tail k)
    ]
    | inr fail ↦ let (q, k) = mem_keep p ts t (rw fail at m) in (q, Memᴰ.tail k)
  ]

  pub keep_mem : (p : A → Bool) (ts : List A) (t : A) → p t ≡ true → Memᴰ t ts → Memᴰ t (keep p ts)
  keep_mem p [] t h m = elim m [ ]
  keep_mem p (u ∷ ts) t h (Memᴰ.head e) =
      let h' : p u ≡ true = ap p (sym e) ∙ h in rw h' (Memᴰ.head e)
  keep_mem p (u ∷ ts) t h (Memᴰ.tail m) = elim (Bool-cases (p u)) [
    | inl pass ↦ rw pass (Memᴰ.tail (keep_mem p ts t h m))
    | inr fail ↦ rw fail (keep_mem p ts t h m)
  ]

  pub mem_update_where :
      (p : A → Bool) (f : A → A) (xs : List A) (y : A)
      → Memᴰ y (update_where p f xs)
      → (x : A) × Memᴰ x xs × (y ≡ (if p x then f x else x))
  mem_update_where p f [] y m = elim m [ ]
  mem_update_where p f (x ∷ xs) y (Memᴰ.head e) = (x, Memᴰ.head refl, e)
  mem_update_where p f (x ∷ xs) y (Memᴰ.tail m) =
      let (z, n, e) = mem_update_where p f xs y m in (z, Memᴰ.tail n, e)

  pub update_where_mem :
      (p : A → Bool) (f : A → A) (xs : List A) (x : A)
      → Memᴰ x xs
      → Memᴰ (if p x then f x else x) (update_where p f xs)
  update_where_mem p f [] x m = elim m [ ]
  update_where_mem p f (y ∷ xs) x (Memᴰ.head e) =
      Memᴰ.head (ap (λ (z : A). if p z then f z else z) e)
  update_where_mem p f (y ∷ xs) x (Memᴰ.tail m) = Memᴰ.tail (update_where_mem p f xs x m)

pub mem_left {ℓ} : {A : Type ℓ} (x : A) (xs ys : List A) → Memᴰ x xs → Memᴰ x (xs ++ ys)
mem_left x [] ys m = elim m [ ]
mem_left x (y ∷ xs) ys (Memᴰ.head e) = Memᴰ.head e
mem_left x (y ∷ xs) ys (Memᴰ.tail m) = Memᴰ.tail (mem_left x xs ys m)

pub mem_last {ℓ} : {A : Type ℓ} (x : A) (xs : List A) → Memᴰ x (xs ++ x ∷ [])
mem_last x [] = Memᴰ.head refl
mem_last x (y ∷ xs) = Memᴰ.tail (mem_last x xs)
