-- ===== src/Sync/Batches/Dated.antt =====
-- The least and the greatest id enclose the ids of all partitions.
use mathlib.Core.List.{Memᴰ}
use bqcubbit.Base.{
  Text, str_lt, str_lt_irrefl, str_lt_trans, str_lt_total, Bool-cases, true, false, List, [], ◌∷◌,
  ◌≡◌, inl, inr, sym, subst,
}
use bqcubbit.Sync.{PartitionInfo}
use bqcubbit.Sync.Batches.{min_text, max_text, min_date, max_date}

not_lt_trans : (a b c : Text) → str_lt a b ≡ false → str_lt b c ≡ false → str_lt a c ≡ false
not_lt_trans a b c h k = elim (Bool-cases (str_lt a c)) [
  | inr fine ↦ fine
  | inl less ↦ elim (Bool-cases (str_lt b a)) [
    | inl ba ↦ cc (str_lt_trans b a c ba less, k)
    | inr not_ba ↦ cc (rw (str_lt_total a b h not_ba) at less, k)
  ]
]

lt_asym : (a b : Text) → str_lt a b ≡ true → str_lt b a ≡ false
lt_asym a b h = elim (Bool-cases (str_lt b a)) [
  | inr fine ↦ fine
  | inl back ↦ cc (str_lt_trans a b a h back, str_lt_irrefl a)
]

min_text_left : (a b : Text) → str_lt a (min_text a b) ≡ false
min_text_left a b = elim (Bool-cases (str_lt a b)) [
  | inl less ↦ rw less (str_lt_irrefl a)
  | inr more ↦ rw more more
]

min_text_right : (a b : Text) → str_lt b (min_text a b) ≡ false
min_text_right a b = elim (Bool-cases (str_lt a b)) [
  | inl less ↦ rw less (lt_asym a b less)
  | inr more ↦ rw more (str_lt_irrefl b)
]

min_date_first : (d : Text) (ps : List PartitionInfo) → str_lt d (min_date d ps) ≡ false
unfolding min_date
min_date_first d [] = str_lt_irrefl d
min_date_first d (p ∷ ps) =
    not_lt_trans d (min_text p.partition_id d) (min_date (min_text p.partition_id d) ps)
      (min_text_right p.partition_id d) (min_date_first (min_text p.partition_id d) ps)

pub min_date_least :
    (d : Text) (ps : List PartitionInfo) (q : PartitionInfo)
    → Memᴰ q ps
    → str_lt q.partition_id (min_date d ps) ≡ false
unfolding min_date
min_date_least d [] q m = elim m [ ]
min_date_least d (p ∷ ps) q (Memᴰ.tail m) = min_date_least (min_text p.partition_id d) ps q m
min_date_least d (p ∷ ps) q (Memᴰ.head e) =
    subst
      (λ x. str_lt (PartitionInfo.partition_id x) (min_date (min_text p.partition_id d) ps) ≡ false)
      (sym e)
      (not_lt_trans p.partition_id (min_text p.partition_id d)
        (min_date (min_text p.partition_id d) ps) (min_text_left p.partition_id d)
        (min_date_first (min_text p.partition_id d) ps))

max_text_left : (a b : Text) → str_lt (max_text a b) a ≡ false
max_text_left a b = elim (Bool-cases (str_lt b a)) [
  | inl less ↦ rw less (str_lt_irrefl a)
  | inr more ↦ rw more more
]

max_text_right : (a b : Text) → str_lt (max_text a b) b ≡ false
max_text_right a b = elim (Bool-cases (str_lt b a)) [
  | inl less ↦ rw less (lt_asym b a less)
  | inr more ↦ rw more (str_lt_irrefl b)
]

max_date_first : (d : Text) (ps : List PartitionInfo) → str_lt (max_date d ps) d ≡ false
unfolding max_date
max_date_first d [] = str_lt_irrefl d
max_date_first d (p ∷ ps) =
    not_lt_trans (max_date (max_text p.partition_id d) ps) (max_text p.partition_id d) d
      (max_date_first (max_text p.partition_id d) ps) (max_text_right p.partition_id d)

pub max_date_greatest :
    (d : Text) (ps : List PartitionInfo) (q : PartitionInfo)
    → Memᴰ q ps
    → str_lt (max_date d ps) q.partition_id ≡ false
unfolding max_date
max_date_greatest d [] q m = elim m [ ]
max_date_greatest d (p ∷ ps) q (Memᴰ.tail m) = max_date_greatest (max_text p.partition_id d) ps q m
max_date_greatest d (p ∷ ps) q (Memᴰ.head e) =
    subst
      (λ x. str_lt (max_date (max_text p.partition_id d) ps) (PartitionInfo.partition_id x) ≡ false)
      (sym e)
      (not_lt_trans (max_date (max_text p.partition_id d) ps) (max_text p.partition_id d)
        p.partition_id (max_date_first (max_text p.partition_id d) ps)
        (max_text_left p.partition_id d))
