-- ===== src/Sync/Table.antt =====
-- internal/sync/sync.go, `syncTable`.
pub mod Watermark
pub mod Runs
use bqcubbit.Base.{ℕ, Text, codes, Bool, true, not, Option, none, some, List, [], ◌∷◌, ltb, keep}
use bqcubbit.State.{TableState, SchemaVersion, Result, ok, err}
use bqcubbit.State.Sqlite.{Store}
use bqcubbit.State.Sqlite.Tables.{get_or_create_table, update_table_watermark}
use bqcubbit.State.Sqlite.Versions.{get_current_schema_version, record_schema_version}
use bqcubbit.Sync.{PartitionInfo}
use bqcubbit.Sync.Batches.{group_into_batches}
use bqcubbit.Sync.Keys.{Now}
use bqcubbit.Sync.Orchestrator.{Orchestrator, World}
use bqcubbit.Sync.Export.{export_batch}

pub data SyncError : Type 0 where
  no_table no_schema no_version no_rows_read : SyncError

pub data SyncResult : Type 0 where
  synced : SyncResult
  sync_failed : SyncError → SyncResult

-- Not modified after the watermark: synced already.
abbrev pub is_modified : Option ℕ → PartitionInfo → Bool
is_modified watermark p = elim watermark [ none ↦ true | some w ↦ ltb w p.last_modified_time ]

unfoldable pub modified_since : Option ℕ → List PartitionInfo → List PartitionInfo
modified_since watermark ps = keep (is_modified watermark) ps

-- The last item of a list that begins with `p`.
unfoldable pub last_of : PartitionInfo → List PartitionInfo → PartitionInfo
last_of p [] = p
last_of p (q ∷ ps) = last_of q ps

abbrev pub initial_version : ℕ → ℕ → SchemaVersion
initial_version now table_id = record {
  id = 0;
  table_id = table_id;
  version = 1;
  schema_hash = codes "initial";
  schema_json = codes "{}";
  change_type = codes "INITIAL";
  changes_json = [];
  valid_from = now;
}

module _ (o : Orchestrator) (now : Now) where
  open o use {arrow}

  -- The loop over the batches, which ends with its first round; the error of the export is logged.
  unfoldable pub export_batches :
      ℕ
      → TableState
      → List (List PartitionInfo)
      → arrow.Schema
      → List arrow.Batch
      → World o
      → World o
  export_batches version t [] schema batches w = w
  export_batches version t (b ∷ bs) schema batches w =
      (export_batch o now version t b schema batches w).1

  -- The watermark after the loop; an error of the database would be logged.
  unfoldable pub set_watermark : ℕ → ℕ → World o → World o
  set_watermark table_id watermark (svc, s) = (svc, (update_table_watermark table_id watermark s).1)

  -- From the read of the table on.
  unfoldable pub export_read :
      ℕ
      → TableState
      → PartitionInfo
      → List PartitionInfo
      → arrow.Schema
      → Option (List arrow.Batch)
      → World o
      → SyncResult × World o
  unfolding export_batches last_of set_watermark
  export_read version t p ps schema none w = (sync_failed no_rows_read, w)
  export_read version t p ps schema (some batches) w = (
    synced,
    set_watermark t.id (last_of p ps).last_modified_time (
        export_batches version t (group_into_batches (p ∷ ps) o.cfg.sync.batch_size_days) schema
          batches w),
  )

  -- From the filter on.
  unfoldable pub export_modified :
      ℕ → TableState → List PartitionInfo → arrow.Schema → World o → SyncResult × World o
  unfolding export_read
  export_modified version t [] schema w = (synced, w)
  export_modified version t (p ∷ ps) schema w =
      export_read version t p ps schema
        (o.read_table o.cfg.source.project_id t.dataset t.table_name) w

  unfoldable pub after_record :
      TableState
      → List PartitionInfo
      → arrow.Schema
      → Result (Unit {0}) × Store
      → o.s3.Service
      → SyncResult × World o
  unfolding export_modified modified_since
  after_record t ps schema (err e, s) svc = (sync_failed no_version, (svc, s))
  after_record t ps schema (ok x, s) svc =
      export_modified 1 t (modified_since t.last_sync_watermark ps) schema (svc, s)

  unfoldable pub after_version :
      TableState
      → List PartitionInfo
      → arrow.Schema
      → Result SchemaVersion × Store
      → o.s3.Service
      → SyncResult × World o
  unfolding after_record
  after_version t ps schema (err e, s) svc =
      after_record t ps schema (record_schema_version (initial_version now.seconds t.id) s) svc
  after_version t ps schema (ok v, s) svc =
      export_modified v.version t (modified_since t.last_sync_watermark ps) schema (svc, s)

  -- What follows the answer to the request for the schema.
  unfoldable pub after_schema :
      TableState → List PartitionInfo → Option arrow.Schema → World o → SyncResult × World o
  unfolding after_version
  after_schema t ps none w = (sync_failed no_schema, w)
  after_schema t ps (some schema) (svc, s) =
      after_version t ps schema (get_current_schema_version t.id s) svc

  unfoldable pub after_table :
      List PartitionInfo → Result TableState × Store → o.s3.Service → SyncResult × World o
  unfolding after_schema
  after_table ps (err e, s) svc = (sync_failed no_table, (svc, s))
  after_table ps (ok t, s) svc =
      after_schema t ps (o.schema o.cfg.source.project_id t.dataset t.table_name) (svc, s)

  unfoldable pub sync_table : Text → Text → List PartitionInfo → World o → SyncResult × World o
  unfolding after_table
  sync_table dataset table_name ps (svc, s) =
      after_table ps (get_or_create_table o.cfg.source.project_id dataset table_name s) svc
