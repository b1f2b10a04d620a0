-- ===== src/Sync/Examples.antt =====
-- The theorems of internal/sync at two daily partitions, and dates of the calendar.
use bqcubbit.Base.{
  ℕ, ◌⊎◌, ◌||◌, codes, str_eq, str_lt, true, none, some, List, [], ◌∷◌, ◌≡◌, ◌↔◌, refl, keep, pos,
  if◌then◌else◌,
}
use bqcubbit.Storage.{has_prefix}
use bqcubbit.Sync.Samples.{listed, new_year, two_later}
use bqcubbit.Sync.Dates.{parse_date, is_zero_date}
use bqcubbit.Sync.Groups.{table_key, group_by_table, group_of, group_by_table_exact}
use bqcubbit.Sync.Batches.{min_date, max_date, group_into_batches}
use bqcubbit.Sync.Batches.Loop.{IsBatching}
use bqcubbit.Sync.Batches.Laws.{CoversDated, group_into_batches_exact}
use bqcubbit.Sync.Discover.{
  Query, info_of, partitions_query, discover_partitions, discover_partitions_exact, Discovered,
}
use bqcubbit.Sync.Errors.{classify_error, error_bq_auth}

leap_day : parse_date (codes "20240229") ≡ some 739310
unfolding parse_date
leap_day = refl

no_leap_day : parse_date (codes "20230229") ≡ none
unfolding parse_date
no_leap_day = refl

group_into_batches_exact_example :
    ((lo hi : ℕ) × (parse_date (min_date (codes "20240101") (new_year ∷ two_later ∷ [])) ≡ some lo)
      × (parse_date (max_date (codes "20240101") (new_year ∷ two_later ∷ [])) ≡ some hi)
      × IsBatching 1 lo hi
          (new_year ∷ two_later ∷ [])
          (group_into_batches (new_year ∷ two_later ∷ []) (pos 1))
      × CoversDated
          (new_year ∷ two_later ∷ [])
          (group_into_batches (new_year ∷ two_later ∷ []) (pos 1)))
    ⊎ ((group_into_batches (new_year ∷ two_later ∷ []) (pos 1) ≡ (new_year ∷ two_later ∷ []) ∷ [])
        × ((lo hi : ℕ)
            → parse_date (min_date (codes "20240101") (new_year ∷ two_later ∷ [])) ≡ some lo
            → parse_date (max_date (codes "20240101") (new_year ∷ two_later ∷ [])) ≡ some hi
            → (is_zero_date lo || is_zero_date hi) ≡ true))
group_into_batches_exact_example = group_into_batches_exact new_year (two_later ∷ []) (pos 1)

batches_run :
    group_into_batches (new_year ∷ two_later ∷ []) (pos 1) ≡ (new_year ∷ []) ∷ (two_later ∷ []) ∷ []
unfolding group_into_batches parse_date str_lt
batches_run = refl

group_by_table_exact_example :
    group_of (codes "d.t") (group_by_table (new_year ∷ two_later ∷ []))
    ≡ keep (λ p. str_eq (table_key p) (codes "d.t")) (new_year ∷ two_later ∷ [])
group_by_table_exact_example = group_by_table_exact (codes "d.t") (new_year ∷ two_later ∷ [])

-- It answers the query of the dataset "d" without a watermark.
abbrev one_answer : Query
one_answer q location watermark =
    if str_eq q (partitions_query (codes "p") (codes "d") none)
    then some (some listed ∷ [])
    else none

discover_partitions_exact_example :
    (discover_partitions true one_answer (codes "p") (codes "EU") (codes "d" ∷ []) none
      ≡ some (new_year ∷ []))
    ↔ Discovered one_answer (codes "p") (codes "EU") none (codes "d" ∷ []) (new_year ∷ [])
discover_partitions_exact_example =
    discover_partitions_exact one_answer (codes "p") (codes "EU") none (codes "d" ∷ [])
      (new_year ∷ [])

discover_run :
    discover_partitions true one_answer (codes "p") (codes "EU") (codes "d" ∷ []) none
    ≡ some (new_year ∷ [])
unfolding discover_partitions info_of str_eq
discover_run = refl

no_answer_run :
    discover_partitions true one_answer (codes "p") (codes "EU") (codes "e" ∷ []) none ≡ none
unfolding discover_partitions str_eq
no_answer_run = refl

classify_run : classify_error (codes "rpc: permission denied") ≡ error_bq_auth
unfolding classify_error has_prefix str_eq
classify_run = refl
