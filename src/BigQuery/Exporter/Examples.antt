-- ===== src/BigQuery/Exporter/Examples.antt =====
-- The export of a partition of one staged object, to a bucket that takes every object.
use bqcubbit.Base.{
  Text, codes, str_eq, true, none, some, [], ◌∷◌, ◌≡◌, refl, Bool-cases, eq_of_str_eq, inl, inr,
}
use bqcubbit.Sync.Keys.{decimal}
use bqcubbit.Sync.Samples.{Objects, put, small_bucket, small_client, no_objects}
use bqcubbit.Storage.{upload_stream}
use bqcubbit.BigQuery.Exporter.{Gcs, Backend, partition_id_to_date, export_partition, gcs_prefix}
use bqcubbit.BigQuery.Exporter.Transfer.{GcsLaws, KeptOrMoved, job_done, export_partition-moved}

abbrev staged_name : Text
staged_name = codes "st/d/t/schema_version=v1/20240101/0.parquet"

-- Its export job stages one object.
abbrev one_staged : Gcs
one_staged = record {
  State = Objects;
  run = λ query s. (true, put staged_name (some (7 ∷ [])) s);
  objects = λ prefix s. some staged_name ∷ [];
  open_object = λ path s. s path;
  delete = λ path s. (true, put path none s);
}

put_other : (path k : Text) (s : Objects) → (k ≡ path → ⊥) → put path none s k ≡ s k
put_other path k s n = elim (Bool-cases (str_eq k path)) [
  | inl same ↦ absurd (n (eq_of_str_eq k path same))
  | inr other ↦ rw other refl
]

abbrev one_staged_laws : GcsLaws one_staged
one_staged_laws = record { content = λ s p. s p; delete_others = put_other }

abbrev backend : Backend
backend = record { staging_bucket = codes "stage"; staging_prefix = codes "st" }

abbrev moved_key : Text
moved_key = codes "d/t/schema_version=v1/20240101/0.parquet"

date_run : partition_id_to_date (codes "20240131") ≡ some (codes "2024-01-31")
unfolding partition_id_to_date
date_run = refl

export_partition-moved_example :
    (date : Text) × (partition_id_to_date (codes "20240101") ≡ some date)
    × KeptOrMoved one_staged one_staged_laws small_bucket small_client
        (codes "st/d/t/schema_version=v1/20240101")
        (codes "d/t/schema_version=v1/20240101")
        (job_done one_staged one_staged_laws small_bucket small_client backend
          (codes "d")
          (codes "t")
          (codes "20240101")
          1
          date
          no_objects)
        (moved_key ∷ [])
        (export_partition one_staged small_bucket small_client backend
          (codes "d")
          (codes "t")
          (codes "20240101")
          1
          (no_objects, no_objects)).1.0
unfolding gcs_prefix export_partition str_eq upload_stream decimal
export_partition-moved_example =
    export_partition-moved one_staged one_staged_laws small_bucket small_client backend (codes "d")
      (codes "t") (codes "20240101") 1 no_objects no_objects (moved_key ∷ []) refl
