-- ===== src/Sync/Batches.antt =====
-- internal/sync/sync.go, `groupIntoBatches`.
pub mod Loop
pub mod Dated
pub mod Laws
use bqcubbit.Base.{
  ℕ, zero, suc, ◌+◌, ◌-◌, Text, str_lt, Bool, true, false, not, ◌&&◌, ◌||◌, Option, none, some,
  List, [], ◌∷◌, ltb, leb, ℤ, pos, negsuc, keep, if◌then◌else◌,
}
use bqcubbit.Sync.{PartitionInfo}
use bqcubbit.Sync.Dates.{parse_date, is_zero_date}

-- batchSizeDays <= 0 means 7.
abbrev pub batch_days : ℤ → ℕ
batch_days (pos zero) = 7
batch_days (pos (suc n)) = suc n
batch_days (negsuc n) = 7

abbrev pub min_text : Text → Text → Text
min_text a b = if str_lt a b then a else b

abbrev pub max_text : Text → Text → Text
max_text a b = if str_lt b a then a else b

-- The least and the greatest id, begun with the first.
unfoldable pub min_date : Text → List PartitionInfo → Text
min_date d [] = d
min_date d (p ∷ ps) = min_date (min_text p.partition_id d) ps

unfoldable pub max_date : Text → List PartitionInfo → Text
max_date d [] = d
max_date d (p ∷ ps) = max_date (max_text p.partition_id d) ps

-- The id is a date between the two.
abbrev pub is_between : ℕ → ℕ → PartitionInfo → Bool
is_between lo hi p = elim (parse_date p.partition_id) [
  | none ↦ false
  | some t ↦ leb lo t && leb t hi
]

abbrev pub earlier : ℕ → ℕ → ℕ
earlier a b = if ltb b a then b else a

-- if len(batch) > 0
abbrev pub add_batch : List PartitionInfo → List (List PartitionInfo) → List (List PartitionInfo)
add_batch [] rest = rest
add_batch (p ∷ ps) rest = (p ∷ ps) ∷ rest

-- The loop from `batchStart` to the last day; each round moves on by a day at least, so one round
-- more than there are days is enough.
unfoldable pub batch_loop : ℕ → ℕ → ℕ → ℕ → List PartitionInfo → List (List PartitionInfo)
batch_loop zero size start last ps = []
batch_loop (suc fuel) size start last ps =
    let end = earlier (start + (size - 1)) last in
    let rest = batch_loop fuel size (end + 1) last ps in
    if leb start last then add_batch (keep (is_between start end) ps) rest else []

abbrev pub whole_or_batches :
    ℕ → List PartitionInfo → Option ℕ → Option ℕ → List (List PartitionInfo)
whole_or_batches size ps (some lo) (some hi) =
    if is_zero_date lo || is_zero_date hi
    then ps ∷ []
    else batch_loop (suc (suc hi - lo)) size lo hi ps
whole_or_batches size ps _ _ = ps ∷ []

unfoldable pub group_into_batches : List PartitionInfo → ℤ → List (List PartitionInfo)
unfolding min_date max_date batch_loop
group_into_batches [] size = []
group_into_batches (p ∷ ps) size =
    whole_or_batches (batch_days size) (p ∷ ps) (parse_date (min_date p.partition_id (p ∷ ps)))
      (parse_date (max_date p.partition_id (p ∷ ps)))
