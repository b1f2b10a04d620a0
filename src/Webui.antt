-- ===== src/Webui.antt =====
-- internal/webui/handler.go: the buffer of log lines, and the data of the pages. The templates, the
-- HTTP server and the mutex are left out; each operation of the buffer holds the lock.
pub mod Buffer
mod Examples
use bqcubbit.Base.{
  ℕ, suc, ◌+◌, Text, codes, Bool, not, Option, none, some, List, [], ◌∷◌, ◌++◌, map, ltb, ◌==◌,
  keep, length, drop, if◌then◌else◌,
}
use bqcubbit.State.{DashboardTableSummary, Result, ok, err}
use bqcubbit.State.Sqlite.{Store}
use bqcubbit.State.Sqlite.Dashboard.{get_dashboard_summary}

-- A channel of a subscriber, by its number: the lines that wait in it.
pub record Subscriber : Type 0 where
  pub channel : ℕ
  pub waiting : List Text

-- `LogBuffer`; `next_channel` numbers the channels.
pub record LogBuffer : Type 0 where
  pub lines : List Text
  pub cap : ℕ
  pub subs : List Subscriber
  pub next_channel : ℕ

-- The capacity of a subscriber's channel.
abbrev pub channel_size : ℕ
channel_size = 64

unfoldable pub new_log_buffer : ℕ → LogBuffer
new_log_buffer cap = record { lines = []; cap = cap; subs = []; next_channel = 0 }

-- The lines after an append, without the first where there are more than `cap`.
unfoldable pub append_line : ℕ → Text → List Text → List Text
append_line cap line lines =
    if ltb cap (length (lines ++ line ∷ []))
    then drop 1 (lines ++ line ∷ [])
    else lines ++ line ∷ []

-- A send that gives up where the channel is full.
unfoldable pub try_send : Text → Subscriber → Subscriber
try_send line s =
    if ltb (length s.waiting) channel_size then record s { waiting = s.waiting ++ line ∷ [] } else s

-- `Write`, on the bytes of a line.
unfoldable pub write : Text → LogBuffer → LogBuffer
unfolding append_line
write line b = record b {
  lines = append_line b.cap line b.lines;
  subs = map (try_send line) b.subs;
}

-- `Subscribe`, with the number of the channel.
unfoldable pub subscribe : LogBuffer → ℕ × LogBuffer
subscribe b = (
  b.next_channel,
  record b {
    subs = b.subs ++ record { channel = b.next_channel; waiting = [] } ∷ [];
    next_channel = suc b.next_channel;
  },
)

unfoldable pub unsubscribe : ℕ → LogBuffer → LogBuffer
unsubscribe channel b = record b { subs = keep (λ s. not (s.channel == channel)) b.subs }

-- The receive of `sseLogs`: the first line that waits in the channel is taken.
unfoldable pub take_line : ℕ → Subscriber → Subscriber
take_line channel s = if s.channel == channel then record s { waiting = drop 1 s.waiting } else s

unfoldable pub receive : ℕ → LogBuffer → LogBuffer
unfolding take_line
receive channel b = record b { subs = map (take_line channel) b.subs }

-- `TableSummary`
pub record TableSummary : Type 0 where
  pub dataset : Text
  pub name : Text
  pub schema_version : ℕ
  pub last_sync : Text
  pub partition_count : ℕ

-- `DashboardData`
pub record DashboardData : Type 0 where
  pub title : Text
  pub page : Text
  pub tables : List TableSummary

-- `SchemaVersionRow` and `PartitionRow`
pub record SchemaVersionRow : Type 0 where
  pub version : ℕ
  pub change_type : Text
  pub valid_from : Text
  pub valid_until : Text

pub record PartitionRow : Type 0 where
  pub partition_id : Text
  pub schema_version : ℕ
  pub last_sync : Text
  pub row_count : ℕ
  pub bytes_in_cubbit : ℕ

-- `TableDetailData`
pub record TableDetailData : Type 0 where
  pub title : Text
  pub page : Text
  pub dataset : Text
  pub table : Text
  pub schema_versions : List SchemaVersionRow
  pub partitions : List PartitionRow

-- The row of one table; `rfc3339` is the format of a time.
unfoldable pub summary_row : (ℕ → Text) → DashboardTableSummary → TableSummary
summary_row rfc3339 s = record {
  dataset = s.dataset;
  name = s.table_name;
  schema_version = s.schema_version;
  last_sync = elim s.last_sync_time [ none ↦ [] | some t ↦ rfc3339 t ];
  partition_count = s.partition_count;
}

unfoldable pub summary_rows : (ℕ → Text) → Result (List DashboardTableSummary) → List TableSummary
unfolding summary_row
summary_rows rfc3339 (err e) = []
summary_rows rfc3339 (ok summaries) = map (summary_row rfc3339) summaries

-- The data of the page of `dashboard`.
unfoldable pub dashboard : (ℕ → Text) → Store → DashboardData
unfolding summary_rows
dashboard rfc3339 s = record {
  title = codes "bqcubbit Dashboard";
  page = codes "dashboard";
  tables = summary_rows rfc3339 (get_dashboard_summary s).0;
}

-- The data of the page of `tableDetail`, on what PathValue gives for a name.
unfoldable pub table_detail : (Text → Text) → TableDetailData
table_detail path_value =
    let dataset = path_value (codes "dataset") in
    let table = path_value (codes "table") in
    record {
      title = dataset ++ (codes "." ++ table);
      page = codes "table";
      dataset = dataset;
      table = table;
      schema_versions = [];
      partitions = [];
    }

-- What `sseLogs` writes for a line, on what encoding/json makes of it.
unfoldable pub sse_event : (Text → Text) → Text → Text
sse_event json line = codes "data: " ++ (json line ++ (10 ∷ 10 ∷ []))
