-- ===== src/State/Sqlite/Dashboard.antt =====
-- internal/state/sqlite.go: `GetDashboardSummary`.
use bqcubbit.Base.{
  ℕ, ◌+◌, str_eq, str_lt, Bool, ◌||◌, ◌&&◌, List, [], ◌∷◌, map, ◌==◌, if◌then◌else◌, count_where,
  keep,
}
use bqcubbit.State.{TableState, PartitionState, DashboardTableSummary, ok, Action}
use bqcubbit.State.Sqlite.{Store}

-- COALESCE(SUM(f), 0)
unfoldable pub sum_of : (PartitionState → ℕ) → List PartitionState → ℕ
sum_of f [] = 0
sum_of f (p ∷ ps) = f p + sum_of f ps

-- The row of one table: the LEFT JOIN with its partitions, grouped.
unfoldable pub summary_of : List PartitionState → TableState → DashboardTableSummary
unfolding sum_of
summary_of partitions t =
    let mine = keep (λ p. p.table_id == t.id) partitions in
    record {
      dataset = t.dataset;
      table_name = t.table_name;
      schema_version = t.schema_version;
      last_sync_time = t.last_sync_watermark;
      partition_count = count_where (λ p. p.table_id == t.id) partitions;
      total_rows = sum_of (λ p. p.row_count) mine;
      total_bytes = sum_of (λ p. p.bytes_in_cubbit) mine;
    }

-- ORDER BY dataset, table_name
abbrev pub before_row : DashboardTableSummary → DashboardTableSummary → Bool
before_row a b =
    str_lt a.dataset b.dataset || (str_eq a.dataset b.dataset && str_lt a.table_name b.table_name)

unfoldable pub insert_row :
    DashboardTableSummary → List DashboardTableSummary → List DashboardTableSummary
insert_row r [] = r ∷ []
insert_row r (q ∷ qs) = if before_row q r then q ∷ insert_row r qs else r ∷ q ∷ qs

unfoldable pub sort_rows : List DashboardTableSummary → List DashboardTableSummary
unfolding insert_row
sort_rows [] = []
sort_rows (r ∷ rs) = insert_row r (sort_rows rs)

unfoldable pub get_dashboard_summary : Action Store (List DashboardTableSummary)
unfolding summary_of sort_rows
get_dashboard_summary s = (ok (sort_rows (map (summary_of s.partitions) s.tables)), s)
