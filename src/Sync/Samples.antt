-- ===== src/Sync/Samples.antt =====
-- Two daily partitions, and an orchestrator over a small bucket.
use bqcubbit.Base.{
  ℕ, Text, codes, str_eq, Bool, true, false, Option, none, some, [], ◌∷◌, drop, if◌then◌else◌,
}
use bqcubbit.Config
use bqcubbit.Hash.Samples.{keeping}
use bqcubbit.Parquet.Samples.{plain_arrow}
use bqcubbit.Storage.{S3, Client}
use bqcubbit.State.{TableState}
use bqcubbit.State.Sqlite.{init}
use bqcubbit.State.Sqlite.Tables.{new_table}
use bqcubbit.Sync.{PartitionInfo}
use bqcubbit.Sync.Discover.{PartitionRow}
use bqcubbit.Sync.Keys.{Now}
use bqcubbit.Sync.Manifests.{Codec}
use bqcubbit.Sync.Orchestrator.{Orchestrator, World}

abbrev pub daily : Text → ℕ → PartitionInfo
daily id modified = record {
  table_project = codes "p";
  table_dataset = codes "d";
  table_name = codes "t";
  partition_id = id;
  total_rows = 10;
  total_logical_bytes = 100;
  last_modified_time = modified;
}

abbrev pub new_year : PartitionInfo
new_year = daily (codes "20240101") 50

abbrev pub two_later : PartitionInfo
two_later = daily (codes "20240103") 70

abbrev pub a_table : TableState
a_table = new_table 1 (codes "p") (codes "d") (codes "t")

abbrev pub Objects : Type 0
Objects = Text → Option Text

abbrev pub put : Text → Option Text → Objects → Objects
put key content s = λ k. if str_eq k key then content else s k

abbrev pub is_there : Option Text → Bool
is_there none = false
is_there (some x) = true

-- A bucket of the name "b" that takes multipart uploads of one part and lists nothing.
abbrev pub small_bucket : S3
small_bucket = record {
  Service = Objects;
  put_object = λ key content s. (true, put key (some content) s);
  head_object = λ key s. (is_there (s key), s);
  get_object = λ key s. (s key, s);
  copy_object = λ source key s. (is_there (s (drop 2 source)), put key (s (drop 2 source)) s);
  delete_object = λ key s. (true, put key none s);
  delete_objects = λ keys s. (none, s);
  list_objects = λ prefix s. [];
  create_multipart_upload = λ key s. (some key, s);
  upload_part = λ key upload_id n content s. (some key, put key (some content) s);
  complete_multipart_upload = λ key upload_id parts s. (some key, s);
  abort_multipart_upload = λ key upload_id s. (true, s);
  list_multipart_uploads = λ s. [];
}

abbrev pub small_client : Client
small_client = record { bucket = codes "b"; prefix = [] }

-- It writes one text, and reads none.
abbrev pub blind_codec : Codec
blind_codec = record { serialize = λ m. codes "{}"; deserialize = λ content. none }

abbrev pub plain_sync : Orchestrator
plain_sync = record {
  cfg = Config.default;
  s3 = small_bucket;
  client = small_client;
  codec = blind_codec;
  hasher = keeping;
  arrow = plain_arrow;
  schema = λ project dataset table. some (8 ∷ []);
  read_table = λ project dataset table. some ((1 ∷ 2 ∷ []) ∷ []);
  put_broken = λ key content s. s;
}

abbrev pub noon : Now
noon = record {
  seconds = 9;
  millis = 9000;
  time_text = codes "120000";
  date_time_text = codes "2024-01-05T12-00-00";
  stamp = codes "2024-01-05T12:00:00Z";
}

abbrev pub no_objects : Objects
no_objects k = none

abbrev pub with_table : World plain_sync
with_table = (no_objects, record init { tables = a_table ∷ [] })

-- The row of `new_year` in INFORMATION_SCHEMA.
abbrev pub listed : PartitionRow
listed = record {
  table_catalog = codes "p";
  table_schema = codes "d";
  table_name = codes "t";
  partition_id = codes "20240101";
  total_rows = 10;
  total_logical_bytes = 100;
  last_modified_time = 50;
}

-- The orchestrator of one dataset.
abbrev pub dataset_sync : Orchestrator
dataset_sync = record plain_sync {
  cfg = record Config.default { sync = record (Config.default.sync) { datasets = codes "d" ∷ [] } };
}
