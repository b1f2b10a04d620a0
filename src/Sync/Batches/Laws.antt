-- ===== src/Sync/Batches/Laws.antt =====
-- What the batches of `groupIntoBatches` hold.
use mathlib.Core.List.{Memᴰ}
use bqcubbit.Base.{
  Text, ◌≤◌, ap₂, none, ℕ, zero, suc, ◌-◌, ◌<◌, Bool-cases, true, ◌||◌, Option, some, List, [], ◌∷◌,
  ◌≡◌, ◌⊎◌, inl, inr, refl, sym, ◌∙◌, arith, ℤ, pos, negsuc,
}
use bqcubbit.Sync.{PartitionInfo}
use bqcubbit.Sync.Dates.{parse_date, is_zero_date}
use bqcubbit.Sync.Dates.Order.{parse_date_le}
use bqcubbit.Sync.Batches.Dated.{min_date_least, max_date_greatest}
use bqcubbit.Sync.Batches.{
  is_between, whole_or_batches, batch_days, min_date, max_date, group_into_batches,
}
use bqcubbit.Sync.Batches.Loop.{IsBatching, day_between, some_eq, batch_loop-IsBatching}

batch_days_pos : (n : ℤ) → 0 < batch_days n
batch_days_pos (pos zero) = ground arith
batch_days_pos (pos (suc n)) = omega arith
batch_days_pos (negsuc n) = ground arith

-- The partitions whose id is a date are dated between the least and the greatest id.
dated_between :
    (d : Text) (ps : List PartitionInfo) (lo hi : ℕ)
    → parse_date (min_date d ps) ≡ some lo
    → parse_date (max_date d ps) ≡ some hi
    → (q : PartitionInfo) → Memᴰ q ps
    → (t : ℕ) → parse_date q.partition_id ≡ some t
    → is_between lo hi q ≡ true
dated_between d ps lo hi el eh q m t e =
    let from : lo ≤ t =
      parse_date_le (min_date d ps) q.partition_id lo t el e (min_date_least d ps q m) in
    let to : t ≤ hi =
      parse_date_le q.partition_id (max_date d ps) t hi e eh (max_date_greatest d ps q m) in
    day_between lo hi q t e from to

-- Each partition whose id is a date stands in a batch.
abbrev pub CoversDated : List PartitionInfo → List (List PartitionInfo) → Type 0
CoversDated ps bs =
    (q : PartitionInfo)
    → Memᴰ q ps
    → (t : ℕ) → parse_date q.partition_id ≡ some t
    → (b : List PartitionInfo) × Memᴰ b bs × Memᴰ q b

-- `groupIntoBatches` of some partitions gives one batch with all of them, where the least or the
-- greatest id is no date or the date 0001-01-01; otherwise it puts the partitions dated from one to
-- the other into batches, which are all those whose id is a date, each partition once and nothing
-- else, and no two partitions of a batch are as far apart as the days of a batch.
pub group_into_batches_exact :
    (p : PartitionInfo) (ps : List PartitionInfo) (n : ℤ)
    → ((lo hi : ℕ) × (parse_date (min_date p.partition_id (p ∷ ps)) ≡ some lo)
        × (parse_date (max_date p.partition_id (p ∷ ps)) ≡ some hi)
        × IsBatching (batch_days n) lo hi (p ∷ ps) (group_into_batches (p ∷ ps) n)
        × CoversDated (p ∷ ps) (group_into_batches (p ∷ ps) n))
      ⊎ ((group_into_batches (p ∷ ps) n ≡ (p ∷ ps) ∷ [])
          × ((lo hi : ℕ)
              → parse_date (min_date p.partition_id (p ∷ ps)) ≡ some lo
              → parse_date (max_date p.partition_id (p ∷ ps)) ≡ some hi
              → (is_zero_date lo || is_zero_date hi) ≡ true))
unfolding group_into_batches
group_into_batches_exact p ps n =
    elim (dated (parse_date (min_date p.partition_id (p ∷ ps)))
      (parse_date (max_date p.partition_id (p ∷ ps)))) [
        | inr whole ↦ inr whole
        | inl (lo, hi, el, eh, batching) ↦ inl (
          lo,
          hi,
          el,
          eh,
          batching,
          λ q m t e.
              batching.covers q m (dated_between p.partition_id (p ∷ ps) lo hi el eh q m t e),
        )
      ]
  where
    dated :
        (a b : Option ℕ)
        → ((lo hi : ℕ) × (a ≡ some lo)
            × (b ≡ some hi)
            × IsBatching
                (batch_days n)
                lo
                hi
                (p ∷ ps)
                (whole_or_batches (batch_days n) (p ∷ ps) a b))
          ⊎ ((whole_or_batches (batch_days n) (p ∷ ps) a b ≡ (p ∷ ps) ∷ [])
              × ((lo hi : ℕ)
                  → a ≡ some lo
                  → b ≡ some hi
                  → (is_zero_date lo || is_zero_date hi) ≡ true))
    dated none b = inr (refl, λ lo hi e f. absurd (cc))
    dated (some lo) none = inr (refl, λ lo' hi e f. absurd (cc))
    dated (some lo) (some hi) = elim (Bool-cases (is_zero_date lo || is_zero_date hi)) [
      | inl zero_date ↦ inr (
        rw zero_date,
        λ lo' hi' e f.
            ap₂ (λ (x y : ℕ). is_zero_date x || is_zero_date y) (sym (some_eq lo lo' e))
              (sym (some_eq hi hi' f))
            ∙ zero_date,
      )
      | inr later ↦ inl (
        lo,
        hi,
        refl,
        refl,
        rw later (
            batch_loop-IsBatching (suc (suc hi - lo)) (batch_days n) lo hi (p ∷ ps)
              (batch_days_pos n) (omega arith)),
      )
    ]
