-- ===== src/BigQuery/Exporter.antt =====
-- internal/bigquery/exporter.go: the export of a partition through Google Cloud Storage. The
-- clients of BigQuery and of Cloud Storage are a parameter.
pub mod Transfer
mod Examples
use bqcubbit.Base.{
  ℕ, suc, ◌+◌, Text, codes, Bool, true, false, Option, none, some, List, [], ◌∷◌, ◌++◌, ◌==◌, ltb,
  length, take, drop, if◌then◌else◌,
}
use bqcubbit.Storage.{S3, Client, Result, ok, err, upload_stream}
use bqcubbit.Sync.Keys.{decimal}

-- `run` is the export job of the text of a query, whether it was started, waited for and done
-- without an error; `objects` is what the iterator over a prefix gives, `none` for its error;
-- `open_object` is the content of an object, if it can be opened.
pub record Gcs : Type 1 where
  pub State : Type 0
  pub run : Text → State → Bool × State
  pub objects : Text → State → List (Option Text)
  pub open_object : Text → State → Option Text
  pub delete : Text → State → Bool × State

-- `ExportDataBackend`, without its clients.
pub record Backend : Type 0 where
  pub staging_bucket : Text
  pub staging_prefix : Text

-- `partitionIDToDate`
unfoldable pub partition_id_to_date : Text → Option Text
partition_id_to_date id =
    if length id == 8
    then some (take 4 id ++ (codes "-" ++ (take 2 (drop 4 id) ++ (codes "-" ++ drop 6 id))))
    else none

-- dataset/table/schema_version=v…/partition
unfoldable pub version_path : Text → Text → Text → ℕ → Text
version_path dataset table partition_id version =
    dataset
    ++ (codes "/"
        ++ (table
            ++ (codes "/schema_version=v" ++ (decimal version ++ (codes "/" ++ partition_id)))))

-- `gcsPrefix`
unfoldable pub gcs_prefix : Backend → Text → Text → Text → ℕ → Text
unfolding version_path
gcs_prefix b dataset table partition_id version =
    b.staging_prefix ++ (codes "/" ++ version_path dataset table partition_id version)

unfoldable pub export_query : Backend → Text → Text → Text → Text → Text
export_query b prefix dataset table date =
    codes "EXPORT DATA OPTIONS(\n\t\turi='gs://"
    ++ (b.staging_bucket
        ++ (codes "/"
            ++ (prefix
                ++ (codes
                      "/*.parquet',\n\t\tformat='PARQUET',\n\t\toverwrite=true,\n\t\tcompression='ZSTD'\n\t) AS\n\tSELECT * FROM "
                    ++ (dataset
                        ++ (codes "."
                            ++ (table
                                ++ (codes "\n\tWHERE _PARTITIONTIME = TIMESTAMP('"
                                    ++ (date ++ codes "')")))))))))

pub data ExportFailure : Type 0 where
  bad_partition_id job_failed list_failed : ExportFailure

-- What `ExportPartition` does: it returns, or a slice is out of its bounds.
pub data Exported : Type 0 where
  exported : List Text → Exported
  not_exported : ExportFailure → Exported
  panics : Exported

-- attrs.Name[len(gcsPrefix)+1:]
unfoldable pub file_name : Text → Text → Option Text
file_name prefix name =
    if ltb (length name) (length prefix + 1) then none else some (drop (length prefix + 1) name)

module _ (g : Gcs) (s3 : S3) (c : Client) where
  abbrev pub Stores : Type 0
  Stores = g.State × s3.Service

  unfoldable pub upload_answer : g.State → Result (Unit {0}) × s3.Service → Bool × Stores
  upload_answer s (ok x, svc) = (true, (s, svc))
  upload_answer s (err e, svc) = (false, (s, svc))

  unfoldable pub upload_opened : Text → Option Text → Stores → Bool × Stores
  unfolding upload_answer
  upload_opened key none w = (false, w)
  upload_opened key (some content) (s, svc) = upload_answer s (upload_stream s3 c key content svc)

  -- `transferFile`; an error is only logged.
  unfoldable pub transfer_file : Text → Text → Stores → Bool × Stores
  unfolding upload_opened
  transfer_file path key (s, svc) = upload_opened key (g.open_object path s) (s, svc)

  -- The key is kept, and the staged object deleted; an error of that is logged.
  unfoldable pub delete_staged : Text → Stores → Stores
  delete_staged path (s, svc) = ((g.delete path s).1, svc)

  -- The end of a round; `rest` is the rounds after it, from the keys so far.
  unfoldable pub transferred :
      (List Text → Stores → Exported × Stores)
      → Text
      → Text
      → List Text
      → Bool × Stores
      → Exported × Stores
  unfolding delete_staged
  transferred rest path key keys (false, w) = rest keys w
  transferred rest path key keys (true, w) = rest (keys ++ key ∷ []) (delete_staged path w)

  unfoldable pub transfer_named :
      (List Text → Stores → Exported × Stores)
      → Text
      → Text
      → Option Text
      → List Text
      → Stores
      → Exported × Stores
  unfolding transferred transfer_file
  transfer_named rest folder path none keys w = (panics, w)
  transfer_named rest folder path (some name) keys w =
      let key = folder ++ (codes "/" ++ name) in
      transferred rest path key keys (transfer_file path key w)

  -- The loop over the objects of the prefix.
  unfoldable pub transfer_objects :
      Text → Text → List (Option Text) → List Text → Stores → Exported × Stores
  unfolding transfer_named file_name
  transfer_objects prefix folder [] keys w = (exported keys, w)
  transfer_objects prefix folder (none ∷ names) keys w = (not_exported list_failed, w)
  transfer_objects prefix folder (some path ∷ names) keys w =
      transfer_named (transfer_objects prefix folder names) folder path (file_name prefix path) keys
        w

  -- What follows the export job.
  unfoldable pub after_job : Text → Text → Bool × g.State → s3.Service → Exported × Stores
  unfolding transfer_objects
  after_job prefix folder (false, s) svc = (not_exported job_failed, (s, svc))
  after_job prefix folder (true, s) svc =
      transfer_objects prefix folder (g.objects prefix s) [] (s, svc)

  unfoldable pub export_dated :
      Backend → Text → Text → Text → ℕ → Option Text → Stores → Exported × Stores
  unfolding after_job gcs_prefix export_query
  export_dated b dataset table partition_id version none w = (not_exported bad_partition_id, w)
  export_dated b dataset table partition_id version (some date) (s, svc) =
      let prefix = gcs_prefix b dataset table partition_id version in
      after_job prefix (version_path dataset table partition_id version)
        (g.run (export_query b prefix dataset table date) s) svc

  -- `ExportPartition`
  unfoldable pub export_partition : Backend → Text → Text → Text → ℕ → Stores → Exported × Stores
  unfolding export_dated partition_id_to_date
  export_partition b dataset table partition_id version w =
      export_dated b dataset table partition_id version (partition_id_to_date partition_id) w
