-- ===== src/BigQuery.antt =====
-- internal/bigquery: the reader of tables, the export through Google Cloud Storage, and the check
-- of late data.
pub mod Reader
pub mod Exporter
use bqcubbit.Base.{ℕ, Bool, ltb}

-- late_data.go, `CheckTableConsistency`: lastModifiedTime.After(snapshotTime)
unfoldable pub check_table_consistency : ℕ → ℕ → Bool
check_table_consistency last_modified_time snapshot_time = ltb snapshot_time last_modified_time
