-- ===== src/State/Sqlite/Tables.antt =====
-- internal/state/sqlite.go: `GetOrCreateTable`, `GetTableByID`, `UpdateTableWatermark`,
-- `AcknowledgeSchemaChange`, `GetOrCreatePartition`, `UpdatePartitionSync`.
pub mod Laws
pub mod Partitions
use bqcubbit.Base.{
  ℕ, suc, Text, str_eq, codes, Bool, true, false, ◌&&◌, Option, none, some, List, [], ◌∷◌, ◌++◌,
  ◌==◌, if◌then◌else◌, any, update_where, find_where,
}
use bqcubbit.State.{
  TableState, PartitionState, Result, ok, err, StoreError, no_rows, no_such_column, Action,
}
use bqcubbit.State.Sqlite.{Store, table_columns}

-- project=? AND dataset=? AND table_name=?
abbrev pub is_table : Text → Text → Text → TableState → Bool
is_table project dataset table_name t =
    str_eq t.project project && (str_eq t.dataset dataset && str_eq t.table_name table_name)

-- The row that the INSERT makes, with the columns' defaults.
abbrev pub new_table : ℕ → Text → Text → Text → TableState
new_table id project dataset table_name = record {
  id = id;
  project = project;
  dataset = dataset;
  table_name = table_name;
  schema_version = 1;
  last_sync_watermark = none;
  last_modified_time = none;
}

unfoldable pub get_or_create_table : Text → Text → Text → Action Store TableState
get_or_create_table project dataset table_name s =
    elim (find_where (is_table project dataset table_name) s.tables) [
      | some t ↦ (ok t, s)
      | none ↦
          let t = new_table s.next_table project dataset table_name in
          (ok t, record s { tables = s.tables ++ t ∷ []; next_table = suc s.next_table })
    ]

unfoldable pub get_table_by_id : ℕ → Action Store TableState
get_table_by_id table_id s = elim (find_where (λ t. t.id == table_id) s.tables) [
  | some t ↦ (ok t, s)
  | none ↦ (err no_rows, s)
]

unfoldable pub update_table_watermark : ℕ → ℕ → Action Store (Unit {0})
update_table_watermark table_id watermark s = (
  ok tt,
  record s {
    tables =
        update_where (λ t. t.id == table_id)
          (λ t. record t { last_sync_watermark = some watermark }) s.tables;
  },
)

-- `UPDATE tables SET state='active', current_schema_version=? WHERE id=?`: a statement that names
-- a column which the table lacks is an error and changes nothing.
unfoldable pub acknowledge_schema_change : ℕ → ℕ → Action Store (Unit {0})
acknowledge_schema_change table_id version s =
    if any (str_eq (codes "state")) table_columns
    then (
      ok tt,
      record s {
        tables =
            update_where (λ t. t.id == table_id) (λ t. record t { schema_version = version })
              s.tables;
      },
    )
    else (err no_such_column, s)

-- table_id=? AND partition_id=?
abbrev pub is_partition : ℕ → Text → PartitionState → Bool
is_partition table_id partition_id p =
    (p.table_id == table_id) && str_eq p.partition_id partition_id

abbrev pub new_partition : ℕ → ℕ → ℕ → Text → PartitionState
new_partition now id table_id partition_id = record {
  id = id;
  table_id = table_id;
  partition_id = partition_id;
  schema_version = 1;
  bq_last_modified = now;
  last_successful_sync = none;
  row_count = 0;
  bytes_in_cubbit = 0;
  last_exported_path = [];
}

unfoldable pub get_or_create_partition : ℕ → ℕ → Text → Action Store PartitionState
get_or_create_partition now table_id partition_id s =
    elim (find_where (is_partition table_id partition_id) s.partitions) [
      | some p ↦ (ok p, s)
      | none ↦
          let p = new_partition now s.next_partition table_id partition_id in
          (
            ok p,
            record s { partitions = s.partitions ++ p ∷ []; next_partition = suc s.next_partition },
          )
    ]

unfoldable pub update_partition_sync : PartitionState → Action Store (Unit {0})
update_partition_sync ps s = (
  ok tt,
  record s {
    partitions =
        update_where (λ p. p.id == ps.id)
          (λ p. record p {
            schema_version = ps.schema_version;
            bq_last_modified = ps.bq_last_modified;
            last_successful_sync = ps.last_successful_sync;
            row_count = ps.row_count;
            bytes_in_cubbit = ps.bytes_in_cubbit;
            last_exported_path = ps.last_exported_path;
          })
          s.partitions;
  },
)
