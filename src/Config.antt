-- ===== src/Config.antt =====
-- internal/config/config.go: the configuration, its defaults, and what `Validate` and `Load`
-- accept.
pub mod Laws
mod Examples
use bqcubbit.Base.{
  ℕ, Text, codes, str_eq, Bool, true, false, not, ◌&&◌, Option, none, some, List, [], ◌∷◌, ℤ, pos,
  negsuc, lt_int, if◌then◌else◌,
}

pub record SourceConfig : Type 0 where
  pub project_id : Text
  pub location : Text
  pub datasets : List Text
  pub partition_column : Text

pub record DestinationConfig : Type 0 where
  pub endpoint : Text
  pub bucket : Text
  pub prefix : Text
  pub access_key : Text
  pub secret_key : Text
  pub compression : Text
  pub compression_level : ℤ

pub record TableSyncConfig : Type 0 where
  pub table_match : Text
  pub incremental_strategy : Text

pub record SchedulerConfig : Type 0 where
  pub cron : Text
  pub overlap_policy : Text
  pub initial_sync_mode : Text

pub record WorkerPoolConfig : Type 0 where
  pub min_workers : ℤ
  pub max_workers : ℤ
  pub queue_depth : ℤ

pub record RateLimitConfig : Type 0 where
  pub bq_read_sessions_per_hour : ℤ
  pub bq_export_jobs_per_hour : ℤ
  pub cubbit_uploads_per_min : ℤ

pub record GcsConfig : Type 0 where
  pub staging_bucket : Text
  pub staging_prefix : Text
  pub lifecycle_days : ℤ

pub record SyncConfig : Type 0 where
  pub table : Text
  pub datasets : List Text
  pub incremental_strategy : Text
  pub tables : List TableSyncConfig
  pub max_concurrent : ℤ
  pub extraction_method : Text
  pub max_partition_size_gb : ℤ
  pub batch_size_days : ℤ

pub record Config : Type 0 where
  pub source : SourceConfig
  pub destination : DestinationConfig
  pub sync : SyncConfig
  pub scheduler : SchedulerConfig
  pub worker_pool : WorkerPoolConfig
  pub rate_limit : RateLimitConfig
  pub gcs : GcsConfig

-- The errors of `Validate`, in the order of its tests, and those of `Load`.
pub data ConfigError : Type 0 where
  no_project_id no_location no_endpoint no_bucket bad_strategy bad_overlap_policy few_workers
        few_max_workers :
      ConfigError
  no_path read_error parse_error : ConfigError

abbrev pub is_empty : Text → Bool
is_empty [] = true
is_empty (c ∷ cs) = false

abbrev pub is_strategy : Text → Bool
is_strategy t = not (
    not (is_empty t)
    && (not (str_eq t (codes "full_refresh")) && not (str_eq t (codes "partition"))))

abbrev pub is_overlap_policy : Text → Bool
is_overlap_policy t = not (
    not (is_empty t)
    && (not (str_eq t (codes "skip"))
        && (not (str_eq t (codes "queue")) && not (str_eq t (codes "cancel_and_restart")))))

-- `none` for nil.
unfoldable pub validate : Config → Option ConfigError
validate c =
    if is_empty c.source.project_id
    then some no_project_id
    else if is_empty c.source.location
    then some no_location
    else if is_empty c.destination.endpoint
    then some no_endpoint
    else if is_empty c.destination.bucket
    then some no_bucket
    else if not (is_strategy c.sync.incremental_strategy)
    then some bad_strategy
    else if not (is_overlap_policy c.scheduler.overlap_policy)
    then some bad_overlap_policy
    else if lt_int c.worker_pool.min_workers (pos 1)
    then some few_workers
    else if lt_int c.worker_pool.max_workers c.worker_pool.min_workers
    then some few_max_workers
    else none

-- `Default`
abbrev pub default : Config
default = record {
  source = record { project_id = []; location = []; datasets = []; partition_column = [] };
  destination = record {
    endpoint = [];
    bucket = [];
    prefix = codes "bq-export/";
    access_key = [];
    secret_key = [];
    compression = codes "zstd";
    compression_level = pos 9;
  };
  sync = record {
    table = [];
    datasets = [];
    incremental_strategy = codes "full_refresh";
    tables = [];
    max_concurrent = pos 1;
    extraction_method = codes "auto";
    max_partition_size_gb = pos 5;
    batch_size_days = pos 0;
  };
  scheduler = record {
    cron = codes "0 2 * * *";
    overlap_policy = codes "skip";
    initial_sync_mode = codes "full_refresh";
  };
  worker_pool = record { min_workers = pos 2; max_workers = pos 8; queue_depth = pos 10 };
  rate_limit = record {
    bq_read_sessions_per_hour = pos 100;
    bq_export_jobs_per_hour = pos 50;
    cubbit_uploads_per_min = pos 60;
  };
  gcs = record {
    staging_bucket = [];
    staging_prefix = codes "_bqcubbit_staging/";
    lifecycle_days = pos 1;
  };
}

pub data Loaded : Type 0 where
  loaded : Config → Loaded
  refused : ConfigError → Loaded

abbrev pub validated : Config → Loaded
validated c = elim (validate c) [ none ↦ loaded c | some e ↦ refused e ]

abbrev pub path_or_env : Text → Text → Text
path_or_env [] env = env
path_or_env (c ∷ cs) env = c ∷ cs

-- `Load` on the value of BQCUBBIT_CONFIG, the files, and what yaml.Unmarshal makes of a text and
-- the defaults.
unfoldable pub load : Text → (Text → Option Text) → (Text → Config → Option Config) → Text → Loaded
load env read_file unmarshal path = elim (path_or_env path env) [
  | [] ↦ refused no_path
  | c ∷ cs ↦ elim (read_file (c ∷ cs)) [
    | none ↦ refused read_error
    | some data_text ↦ elim (unmarshal data_text default) [
      | none ↦ refused parse_error
      | some cfg ↦ validated cfg
    ]
  ]
]
