-- ===== src/Sync/Batches/Loop.antt =====
-- What the loop of `groupIntoBatches` gives.
use mathlib.Core.List.{Memᴰ}
use bqcubbit.Base.{
  ℕ, zero, suc, ◌+◌, ◌-◌, ◌≤◌, ◌<◌, Bool-cases, Option-cases, true, false, Option, some, List, [],
  ◌∷◌, ◌≡◌, ◌⊎◌, inl, inr, refl, sym, subst, ◌∙◌, arith, leb, keep, mem_keep, keep_mem, count_where,
  length, length-keep-eq-count_where,
}
use bqcubbit.Sync.{PartitionInfo}
use bqcubbit.Sync.Dates.{parse_date}
use bqcubbit.Sync.Batches.{is_between, earlier, add_batch, batch_loop}

-- The number of partitions in all batches.
abbrev pub total : List (List PartitionInfo) → ℕ
total [] = 0
total (b ∷ bs) = length b + total bs

-- The batches of the partitions between two days.
pub record IsBatching (size lo hi : ℕ) (ps : List PartitionInfo) (bs : List (List PartitionInfo))
    : Type 0 where
  pub covers :
      (p : PartitionInfo)
      → Memᴰ p ps
      → is_between lo hi p ≡ true
      → (b : List PartitionInfo) × Memᴰ b bs × Memᴰ p b
  pub members :
      (p : PartitionInfo) (b : List PartitionInfo)
      → Memᴰ b bs
      → Memᴰ p b
      → Memᴰ p ps × (is_between lo hi p ≡ true)
  pub narrow :
      (p q : PartitionInfo) (b : List PartitionInfo) (t u : ℕ)
      → Memᴰ b bs
      → Memᴰ p b
      → Memᴰ q b
      → parse_date p.partition_id ≡ some t
      → parse_date q.partition_id ≡ some u
      → t < u + size
  pub counted : total bs ≡ count_where (is_between lo hi) ps

between_day :
    (lo hi : ℕ) (p : PartitionInfo)
    → is_between lo hi p ≡ true
    → (t : ℕ) × (parse_date p.partition_id ≡ some t) × (lo ≤ t) × (t ≤ hi)
between_day lo hi p h = elim (Option-cases (parse_date p.partition_id)) [
  | inl no_date ↦ absurd (ground arith)
  | inr (t, e) ↦ (t, e, ground arith, ground arith)
]

pub day_between :
    (lo hi : ℕ) (p : PartitionInfo) (t : ℕ)
    → parse_date p.partition_id ≡ some t
    → lo ≤ t
    → t ≤ hi
    → is_between lo hi p ≡ true
day_between lo hi p t e a b = ground arith

pub some_eq : (t u : ℕ) → ◌≡◌ {A = Option ℕ} (some t) (some u) → t ≡ u
some_eq t u e = ground arith

add_mem :
    (b c : List PartitionInfo) (bs : List (List PartitionInfo))
    → Memᴰ c (add_batch b bs)
    → (c ≡ b) ⊎ Memᴰ c bs
add_mem [] c bs m = inr m
add_mem (p ∷ ps) c bs (Memᴰ.head e) = inl e
add_mem (p ∷ ps) c bs (Memᴰ.tail m) = inr m

mem_add :
    (b c : List PartitionInfo) (bs : List (List PartitionInfo))
    → Memᴰ c bs
    → Memᴰ c (add_batch b bs)
mem_add [] c bs m = m
mem_add (p ∷ ps) c bs m = Memᴰ.tail m

own_add :
    (b : List PartitionInfo) (p : PartitionInfo) (bs : List (List PartitionInfo))
    → Memᴰ p b
    → Memᴰ b (add_batch b bs)
own_add [] p bs m = elim m [ ]
own_add (q ∷ b) p bs m = Memᴰ.head refl

total-add :
    (b : List PartitionInfo) (bs : List (List PartitionInfo))
    → total (add_batch b bs) ≡ length b + total bs
total-add [] bs = omega arith
total-add (p ∷ b) bs = refl

count_split :
    (lo mid hi : ℕ) (ps : List PartitionInfo)
    → lo ≤ mid
    → mid ≤ hi
    → count_where (is_between lo hi) ps
      ≡ count_where (is_between lo mid) ps + count_where (is_between (mid + 1) hi) ps
count_split lo mid hi [] a b = omega arith
count_split lo mid hi (p ∷ ps) a b = elim (Option-cases (parse_date p.partition_id)) [
  | inl no_date ↦ ground (arith, count_split lo mid hi ps a b)
  | inr (t, e) ↦ ground (arith, count_split lo mid hi ps a b)
]

none_between :
    (lo hi : ℕ) (ps : List PartitionInfo) → hi < lo → count_where (is_between lo hi) ps ≡ 0
none_between lo hi [] h = refl
none_between lo hi (p ∷ ps) h = elim (Option-cases (parse_date p.partition_id)) [
  | inl no_date ↦ ground (arith, none_between lo hi ps h)
  | inr (t, e) ↦ ground (arith, none_between lo hi ps h)
]

batch_loop_end :
    (fuel size start last : ℕ) (ps : List PartitionInfo)
    → last < start
    → batch_loop fuel size start last ps ≡ []
unfolding batch_loop
batch_loop_end zero size start last ps h = refl
batch_loop_end (suc fuel) size start last ps h =
    let late : leb start last ≡ false = ground arith in rw late

nothing-IsBatching :
    (size lo hi : ℕ) (ps : List PartitionInfo) → hi < lo → IsBatching size lo hi ps []
nothing-IsBatching size lo hi ps h = record {
  covers = λ p m k. let (t, e, a, b) = between_day lo hi p k in absurd (omega (arith, h, a, b));
  members = λ p b m n. elim m [ ];
  narrow = λ p q b t u m. elim m [ ];
  counted = sym (none_between lo hi ps h);
}

-- The first batch, up to `mid`, and the batches after it.
add-IsBatching :
    (size lo mid hi : ℕ) (ps : List PartitionInfo) (bs : List (List PartitionInfo))
    → lo ≤ mid
    → mid ≤ hi
    → mid < lo + size
    → IsBatching size (mid + 1) hi ps bs
    → IsBatching size lo hi ps (add_batch (keep (is_between lo mid) ps) bs)
add-IsBatching size lo mid hi ps bs a b w v = record {
  covers = λ p m k.
      let (t, e, c, d) = between_day lo hi p k in
      elim (Bool-cases (leb t mid)) [
        | inl first ↦
            let n : Memᴰ p own =
              keep_mem (is_between lo mid) ps p (day_between lo mid p t e c (ground arith)) m in
            (own, own_add own p bs n, n)
        | inr later ↦
            let (x, i, j) = v.covers p m (day_between (mid + 1) hi p t e (ground arith) d) in
            (x, mem_add own x bs i, j)
      ];
  members = λ p x m n. elim (add_mem own x bs m) [
    | inl same ↦ own_member p (subst (Memᴰ p) same n)
    | inr other ↦
        let (i, j) = v.members p x other n in
        let (t, e, c, d) = between_day (mid + 1) hi p j in
        (i, day_between lo hi p t e (omega (arith, a, c)) d)
  ];
  narrow = λ p q x t u m i j e f. elim (add_mem own x bs m) [
    | inl same ↦ own_narrow p q t u (subst (Memᴰ p) same i) (subst (Memᴰ q) same j) e f
    | inr other ↦ v.narrow p q x t u other i j e f
  ];
  counted =
      total-add own bs
      ∙ omega (
        arith,
        v.counted,
        length-keep-eq-count_where (is_between lo mid) ps,
        count_split lo mid hi ps a b,
      );
}
  where
    own : List PartitionInfo
    own = keep (is_between lo mid) ps

    own_member : (p : PartitionInfo) → Memᴰ p own → Memᴰ p ps × (is_between lo hi p ≡ true)
    own_member p n =
        let (h, m) = mem_keep (is_between lo mid) ps p n in
        let (t, e, c, d) = between_day lo mid p h in
        (m, day_between lo hi p t e c (omega (arith, b, d)))

    own_narrow :
        (p q : PartitionInfo) (t u : ℕ)
        → Memᴰ p own
        → Memᴰ q own
        → parse_date p.partition_id ≡ some t
        → parse_date q.partition_id ≡ some u
        → t < u + size
    own_narrow p q t u i j e f =
        let (t', e', c, d) = between_day lo mid p (mem_keep (is_between lo mid) ps p i).0 in
        let (u', f', c', d') = between_day lo mid q (mem_keep (is_between lo mid) ps q j).0 in
        omega (arith, w, d, c', some_eq t t' (sym e ∙ e'), some_eq u u' (sym f ∙ f'))

pub batch_loop-IsBatching :
    (fuel size start last : ℕ) (ps : List PartitionInfo)
    → 0 < size
    → suc last - start < fuel
    → IsBatching size start last ps (batch_loop fuel size start last ps)
unfolding batch_loop
batch_loop-IsBatching zero size start last ps positive h = absurd (omega (arith, h))
batch_loop-IsBatching (suc fuel) size start last ps positive h =
    elim (Bool-cases (leb start last)) [
      | inl more ↦
          let end : ℕ = earlier (start + (size - 1)) last in
          let le : start ≤ last = ground arith in
          let ahead : start ≤ earlier (start + (size - 1)) last = ground arith in
          let inside : earlier (start + (size - 1)) last ≤ last = ground arith in
          let near : earlier (start + (size - 1)) last < start + size = ground arith in
          rw more (
            add-IsBatching size start (earlier (start + (size - 1)) last) last ps _ ahead inside
              near
              (batch_loop-IsBatching fuel size (earlier (start + (size - 1)) last + 1) last ps
                positive (omega (arith, h, ahead, inside, le))))
      | inr done ↦ rw done (nothing-IsBatching size start last ps (ground arith))
    ]
