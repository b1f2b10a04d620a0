-- ===== src/Sync/Table/Runs.antt =====
-- `syncTable` leaves the rows of the runs and of the tasks alone.
use bqcubbit.Base.{
  ℕ, Text, Option, Option-cases, none, some, List, [], ◌∷◌, ◌≡◌, refl, ap, ◌∙◌, inl, inr,
  find_where, keep, ◌==◌,
}
use bqcubbit.State.{TableState, SchemaVersion, SyncRun, Task, Result, ok, err}
use bqcubbit.State.Sqlite.{Store}
use bqcubbit.State.Sqlite.Tables.{is_table, get_or_create_table, update_table_watermark}
use bqcubbit.State.Sqlite.Versions.{
  same_version, get_current_schema_version, record_schema_version, latest,
}
use bqcubbit.Sync.{PartitionInfo}
use bqcubbit.Sync.Batches.{group_into_batches}
use bqcubbit.Sync.Keys.{Now}
use bqcubbit.Sync.Orchestrator.{Orchestrator, World}
use bqcubbit.Sync.Export.Skip.{export_batch-outside}
use bqcubbit.Sync.Table.{
  modified_since, last_of, initial_version, export_batches, set_watermark, export_read,
  export_modified, after_record, after_version, after_schema, after_table, sync_table,
}

-- The runs and the tasks of a store.
abbrev pub runs_tasks : Store → List SyncRun × List Task
runs_tasks s = (s.runs, s.tasks)

pub get_or_create_table-runs :
    (project dataset table_name : Text) (s : Store)
    → runs_tasks (get_or_create_table project dataset table_name s).1 ≡ runs_tasks s
unfolding get_or_create_table
get_or_create_table-runs project dataset table_name s =
    elim (Option-cases (find_where (is_table project dataset table_name) s.tables)) [
      | inl missing ↦ rw (missing, get_or_create_table) refl
      | inr (t, found) ↦ rw (found, get_or_create_table) refl
    ]

record_schema_version-runs :
    (sv : SchemaVersion) (s : Store) → runs_tasks (record_schema_version sv s).1 ≡ runs_tasks s
unfolding record_schema_version
record_schema_version-runs sv s = elim (Option-cases (find_where (same_version sv) s.versions)) [
  | inl missing ↦ rw (missing, record_schema_version) refl
  | inr (t, found) ↦ rw (found, record_schema_version) refl
]

pub get_current-same : (table_id : ℕ) (s : Store) → (get_current_schema_version table_id s).1 ≡ s
unfolding get_current_schema_version
get_current-same table_id s =
    elim (Option-cases (latest (keep (λ v. v.table_id == table_id) s.versions))) [
      | inl missing ↦ rw (missing, get_current_schema_version) refl
      | inr (v, found) ↦ rw (found, get_current_schema_version) refl
    ]

module _ (o : Orchestrator) (now : Now) where
  open o use {arrow}

  export_batches-runs :
      (version : ℕ) (t : TableState) (bs : List (List PartitionInfo)) (schema : arrow.Schema)
      (batches : List arrow.Batch) (w : World o)
      → runs_tasks (export_batches o now version t bs schema batches w).1 ≡ runs_tasks w.1
  unfolding export_batches
  export_batches-runs version t [] schema batches w = refl
  export_batches-runs version t (b ∷ bs) schema batches w =
      ap runs_tasks (export_batch-outside o now version t b schema batches w)

  set_watermark-runs :
      (id n : ℕ) (w : World o) → runs_tasks (set_watermark o now id n w).1 ≡ runs_tasks w.1
  unfolding set_watermark update_table_watermark
  set_watermark-runs id n (svc, s) = refl

  export_read-runs :
      (version : ℕ) (t : TableState) (p : PartitionInfo) (ps : List PartitionInfo)
      (schema : arrow.Schema) (answer : Option (List arrow.Batch)) (w : World o)
      → runs_tasks (export_read o now version t p ps schema answer w).1.1 ≡ runs_tasks w.1
  unfolding export_read
  export_read-runs version t p ps schema none w = refl
  export_read-runs version t p ps schema (some batches) w =
      let bs = group_into_batches (p ∷ ps) o.cfg.sync.batch_size_days in
      set_watermark-runs t.id (last_of p ps).last_modified_time
        (export_batches o now version t bs schema batches w)
      ∙ export_batches-runs version t bs schema batches w

  export_modified-runs :
      (version : ℕ) (t : TableState) (ps : List PartitionInfo) (schema : arrow.Schema) (w : World o)
      → runs_tasks (export_modified o now version t ps schema w).1.1 ≡ runs_tasks w.1
  unfolding export_modified
  export_modified-runs version t [] schema w = refl
  export_modified-runs version t (p ∷ ps) schema w =
      export_read-runs version t p ps schema
        (o.read_table o.cfg.source.project_id t.dataset t.table_name) w

  after_record-runs :
      (t : TableState) (ps : List PartitionInfo) (schema : arrow.Schema)
      (r : Result (Unit {0}) × Store) (svc : o.s3.Service)
      → runs_tasks (after_record o now t ps schema r svc).1.1 ≡ runs_tasks r.1
  unfolding after_record
  after_record-runs t ps schema (err e, s) svc = refl
  after_record-runs t ps schema (ok x, s) svc =
      export_modified-runs 1 t (modified_since t.last_sync_watermark ps) schema (svc, s)

  after_version-runs :
      (t : TableState) (ps : List PartitionInfo) (schema : arrow.Schema)
      (r : Result SchemaVersion × Store) (svc : o.s3.Service)
      → runs_tasks (after_version o now t ps schema r svc).1.1 ≡ runs_tasks r.1
  unfolding after_version
  after_version-runs t ps schema (err e, s) svc =
      after_record-runs t ps schema (record_schema_version (initial_version now.seconds t.id) s) svc
      ∙ record_schema_version-runs (initial_version now.seconds t.id) s
  after_version-runs t ps schema (ok v, s) svc =
      export_modified-runs v.version t (modified_since t.last_sync_watermark ps) schema (svc, s)

  after_schema-runs :
      (t : TableState) (ps : List PartitionInfo) (answer : Option arrow.Schema) (w : World o)
      → runs_tasks (after_schema o now t ps answer w).1.1 ≡ runs_tasks w.1
  unfolding after_schema
  after_schema-runs t ps none w = refl
  after_schema-runs t ps (some schema) (svc, s) =
      after_version-runs t ps schema (get_current_schema_version t.id s) svc
      ∙ ap runs_tasks (get_current-same t.id s)

  after_table-runs :
      (ps : List PartitionInfo) (r : Result TableState × Store) (svc : o.s3.Service)
      → runs_tasks (after_table o now ps r svc).1.1 ≡ runs_tasks r.1
  unfolding after_table
  after_table-runs ps (err e, s) svc = refl
  after_table-runs ps (ok t, s) svc =
      after_schema-runs t ps (o.schema o.cfg.source.project_id t.dataset t.table_name) (svc, s)

  pub sync_table-runs :
      (dataset table_name : Text) (ps : List PartitionInfo) (w : World o)
      → runs_tasks (sync_table o now dataset table_name ps w).1.1 ≡ runs_tasks w.1
  unfolding sync_table
  sync_table-runs dataset table_name ps (svc, s) =
      after_table-runs ps (get_or_create_table o.cfg.source.project_id dataset table_name s) svc
      ∙ get_or_create_table-runs o.cfg.source.project_id dataset table_name s
