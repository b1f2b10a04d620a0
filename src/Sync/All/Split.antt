-- ===== src/Sync/All/Split.antt =====
-- The key of a table in the map of `groupByTable` gives its dataset and name back.
use bqcubbit.Base.{Text, codes, Bool, false, some, [], ◌∷◌, ◌++◌, ◌≡◌, refl, arith, ◌==◌, any}
use bqcubbit.Sync.{PartitionInfo}
use bqcubbit.Sync.Groups.{table_key}
use bqcubbit.Sync.All.{split_dot}

has_dot : Text → Bool
has_dot t = any (λ c. c == 46) t

split_dot-append :
    (a b : Text) → any (λ c. c == 46) a ≡ false → split_dot (a ++ (codes "." ++ b)) ≡ some (a, b)
unfolding split_dot
split_dot-append [] b h = refl
split_dot-append (c ∷ a) b h = ground (arith, split_dot-append a b)

-- Where the name of its dataset has no dot, the key of a partition's table is split into that name
-- and the name of the table, dots and all.
pub split_dot-table_key :
    (p : PartitionInfo)
    → any (λ c. c == 46) p.table_dataset ≡ false
    → split_dot (table_key p) ≡ some (p.table_dataset, p.table_name)
split_dot-table_key p h = split_dot-append p.table_dataset p.table_name h
