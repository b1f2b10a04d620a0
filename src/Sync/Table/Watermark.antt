-- ===== src/Sync/Table/Watermark.antt =====
-- What `syncTable` does to the watermark of a table, and what the next one then leaves out.
use bqcubbit.Base.{ℕ, Option, List, ◌==◌, find_where}
use bqcubbit.State.{TableState}
use bqcubbit.State.Sqlite.{Store}
use bqcubbit.Sync.Orchestrator.{Orchestrator}

-- The row of a table.
abbrev pub table_row : ℕ → Store → Option TableState
table_row id s = find_where (λ t. t.id == id) s.tables
