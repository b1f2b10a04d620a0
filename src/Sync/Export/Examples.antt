-- ===== src/Sync/Export/Examples.antt =====
-- The export of two days by the small orchestrator.
use bqcubbit.Base.{codes, some, [], ◌∷◌, ◌≡◌, ◌⊎◌, refl, length, ◌%◌, str_eq}
use bqcubbit.State.Sqlite.Tables.{get_or_create_partition}
use bqcubbit.Storage.{upload_stream, object_exists}
use bqcubbit.Storage.Rename.{rename_object}
use bqcubbit.Storage.Multipart.{upload_multipart}
use bqcubbit.Sync.Orchestrator.{piped, upload_body}
use bqcubbit.Sync.Manifests.{merge_manifest}
use bqcubbit.Hash.{int64_values}
use bqcubbit.Parquet.{WriteResult, written, write_stream_result}
use bqcubbit.State.Sqlite.{init}
use bqcubbit.Sync.Samples.{new_year, two_later, plain_sync, noon, a_table, with_table, no_objects}
use bqcubbit.Sync.Keys.{batch_staging_key, batch_final_key}
use bqcubbit.Sync.Export.{export_batch, last_id}
use bqcubbit.Sync.Export.Skip.{Skipped, Exported, Failed, export_batch_exact}

two_days_exported :
    (export_batch plain_sync noon 1 a_table
        (new_year ∷ two_later ∷ [])
        (8 ∷ [])
        ((1 ∷ 2 ∷ []) ∷ [])
        with_table).1.0
      (codes "/d/t/schema_version=v1/20240101_20240103.parquet")
    ≡ some (8 ∷ 1 ∷ 2 ∷ 0 ∷ [])
unfolding export_batch get_or_create_partition init upload_body upload_multipart piped
    write_stream_result rename_object str_eq batch_staging_key merge_manifest upload_stream
    object_exists batch_final_key
two_days_exported = refl

export_batch_exact_example :
    Skipped plain_sync noon 1 a_table new_year (two_later ∷ []) with_table.1 (
      export_batch plain_sync noon 1 a_table
        (new_year ∷ two_later ∷ [])
        (8 ∷ [])
        ((1 ∷ 2 ∷ []) ∷ [])
        with_table)
    ⊎ (((w : WriteResult) × ((write_stream_result plain_sync.arrow (8 ∷ []) ((1 ∷ 2 ∷ []) ∷ [])).0
            ≡ written w)
          × Exported plain_sync noon 1 a_table new_year
              (two_later ∷ [])
              (length (write_stream_result plain_sync.arrow (8 ∷ []) ((1 ∷ 2 ∷ []) ∷ [])).1
                % int64_values)
              (codes "d/t/schema_version=v1/20240101_20240103.parquet")
              with_table.1
              (export_batch plain_sync noon 1 a_table
                (new_year ∷ two_later ∷ [])
                (8 ∷ [])
                ((1 ∷ 2 ∷ []) ∷ [])
                with_table))
        ⊎ Failed plain_sync noon 1 a_table new_year (two_later ∷ []) with_table.1 (
            export_batch plain_sync noon 1 a_table
              (new_year ∷ two_later ∷ [])
              (8 ∷ [])
              ((1 ∷ 2 ∷ []) ∷ [])
              with_table))
unfolding batch_final_key last_id
export_batch_exact_example =
    export_batch_exact plain_sync noon 1 a_table new_year (two_later ∷ []) (8 ∷ [])
      ((1 ∷ 2 ∷ []) ∷ []) no_objects with_table.1
