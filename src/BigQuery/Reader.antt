-- ===== src/BigQuery/Reader.antt =====
-- internal/bigquery/reader.go: the reader of the BigQuery Storage API. The client, its streams and
-- the Arrow IPC library are parameters.
pub mod Stream
mod Examples
use bqcubbit.Base.{
  ℕ, zero, suc, Text, codes, Bool, true, false, ◌||◌, Option, none, some, List, [], ◌∷◌, ◌++◌,
}

-- What errors.Is and status.Code say of an error.
pub data StreamError : Type 0 where
  end_of_file out_of_range context_canceled status_canceled other_error : StreamError

-- `isStreamDone`
unfoldable pub is_stream_done : StreamError → Bool
is_stream_done end_of_file = true
is_stream_done out_of_range = true
is_stream_done context_canceled = true
is_stream_done status_canceled = true
is_stream_done other_error = false

-- `tablePath`
unfoldable pub bq_table_path : Text → Text → Text → Text
bq_table_path project dataset table =
    codes "projects/"
    ++ (project ++ (codes "/datasets/" ++ (dataset ++ (codes "/tables/" ++ table))))

-- The request for a session of one Arrow stream, without a snapshot time or with one.
pub record SessionRequest : Type 0 where
  pub parent : Text
  pub table : Text
  pub max_stream_count : ℕ
  pub snapshot_time : Option ℕ

-- A session: the names of its streams, and the bytes of its Arrow schema if it has one.
pub record Session : Type 0 where
  pub streams : List Text
  pub arrow_schema : Option Text

unfoldable pub session_request : Text → Text → Text → Option ℕ → SessionRequest
unfolding bq_table_path
session_request project dataset table snapshot_time = record {
  parent = codes "projects/" ++ project;
  table = bq_table_path project dataset table;
  max_stream_count = 1;
  snapshot_time = snapshot_time;
}

-- What `Recv` returns: an error, or a response with the bytes of its batch if it has one.
pub data Response : Type 0 where
  recv_error : StreamError → Response
  response : Option Text → Response

-- One round of the loop: whether the context is done at its start, what `Recv` returns, and how
-- many records can be sent before the context is done, if it is done while they are sent.
pub record Round : Type 0 where
  pub is_done : Bool
  pub received : Response
  pub cut : Option ℕ

-- The parts of the client and of the library that the reader uses: `decode` gives the records that
-- an IPC reader yields on some bytes before it ends or fails, `none` if it cannot be made.
pub record ReadClient : Type 1 where
  pub Schema : Type 0
  pub Record : Type 0
  pub create_read_session : SessionRequest → Option Session
  pub parse_schema : Text → Option Schema
  pub read_rows : Text → Option (List Round)
  pub decode : Text → Option (List Record)

pub data ReadError : Type 0 where
  no_session no_streams no_schema bad_schema : ReadError

pub data Answer {ℓ} (A : Type ℓ) : Type ℓ where
  got : A → Answer A
  refused : ReadError → Answer A

-- The line that the goroutine logs when it ends, if it logs one.
pub data StreamEnd : Type 0 where
  quiet logged_read_rows logged_recv logged_ipc : StreamEnd

module _ (c : ReadClient) where
  open c use {Schema, Record}

  unfoldable pub schema_of : Option Session → Answer Schema
  schema_of none = refused no_session
  schema_of (some session) = elim session.arrow_schema [
    | none ↦ refused no_schema
    | some content ↦ elim (c.parse_schema content) [ none ↦ refused bad_schema | some s ↦ got s ]
  ]

  -- `Schema`
  unfoldable pub table_schema : Text → Text → Text → Answer Schema
  unfolding session_request schema_of
  table_schema project dataset table =
      schema_of (c.create_read_session (session_request project dataset table none))

  -- The first records of a batch, and whether all were sent.
  unfoldable pub send_records : Option ℕ → List Record → List Record × Bool
  send_records cut [] = ([], true)
  send_records none (r ∷ rs) = let (sent, all) = send_records none rs in (r ∷ sent, all)
  send_records (some zero) (r ∷ rs) = ([], false)
  send_records (some (suc n)) (r ∷ rs) =
      let (sent, all) = send_records (some n) rs in (r ∷ sent, all)

  -- What follows the records of a batch; `rest` is what the rounds after it send.
  unfoldable pub sent_then : List Record × Bool → List Record × StreamEnd → List Record × StreamEnd
  sent_then (sent, true) (rs, end) = (sent ++ rs, end)
  sent_then (sent, false) rest = (sent, quiet)

  unfoldable pub decoded_then :
      Option ℕ → Option (List Record) → List Record × StreamEnd → List Record × StreamEnd
  unfolding send_records sent_then
  decoded_then cut none rest = ([], logged_ipc)
  decoded_then cut (some rs) rest = sent_then (send_records cut rs) rest

  unfoldable pub after_recv :
      Text → Option ℕ → Response → List Record × StreamEnd → List Record × StreamEnd
  unfolding decoded_then
  after_recv schema_bytes cut (recv_error e) rest = elim (is_stream_done e) [
    | true ↦ ([], quiet)
    | false ↦ ([], logged_recv)
  ]
  after_recv schema_bytes cut (response none) rest = rest
  after_recv schema_bytes cut (response (some batch)) rest =
      decoded_then cut (c.decode (schema_bytes ++ batch)) rest

  -- The loop over the rounds of a stream: what is sent to the channel before it is closed, and how
  -- the goroutine ends. Where the rounds end, so has the context.
  unfoldable pub stream_rounds : Text → List Round → List Record × StreamEnd
  unfolding after_recv
  stream_rounds schema_bytes [] = ([], quiet)
  stream_rounds schema_bytes (r ∷ rounds) = elim r.is_done [
    | true ↦ ([], quiet)
    | false ↦ after_recv schema_bytes r.cut r.received (stream_rounds schema_bytes rounds)
  ]

  unfoldable pub stream_of : Text → Option (List Round) → List Record × StreamEnd
  unfolding stream_rounds
  stream_of schema_bytes none = ([], logged_read_rows)
  stream_of schema_bytes (some rounds) = stream_rounds schema_bytes rounds

  -- `GetSerializedSchema` of a schema that may be nil.
  unfoldable pub schema_bytes : Session → Text
  schema_bytes session = elim session.arrow_schema [ none ↦ [] | some content ↦ content ]

  unfoldable pub read_streams : Session → List Text → Answer (List Record × StreamEnd)
  unfolding stream_of schema_bytes
  read_streams session [] = refused no_streams
  read_streams session (name ∷ names) = got (stream_of (schema_bytes session) (c.read_rows name))

  unfoldable pub read_session : Option Session → Answer (List Record × StreamEnd)
  unfolding read_streams
  read_session none = refused no_session
  read_session (some session) = read_streams session session.streams

  -- `readTable`: what the channel gives until it is closed, and the end of the goroutine, which the
  -- caller does not see.
  unfoldable pub read_table_at : Text → Text → Text → Option ℕ → Answer (List Record × StreamEnd)
  unfolding read_session
  read_table_at project dataset table snapshot_time =
      read_session (c.create_read_session (session_request project dataset table snapshot_time))

  -- What the caller of `ReadTable` sees: the records of the channel.
  unfoldable pub seen : Answer (List Record × StreamEnd) → Answer (List Record)
  seen (got r) = got r.0
  seen (refused e) = refused e

  -- `ReadTable`
  unfoldable pub read_table : Text → Text → Text → Answer (List Record)
  unfolding read_table_at seen
  read_table project dataset table = seen (read_table_at project dataset table none)

  -- `ReadTableAtSnapshot`
  unfoldable pub read_table_at_snapshot : Text → Text → Text → ℕ → Answer (List Record)
  unfolding read_table_at seen
  read_table_at_snapshot project dataset table snapshot_time =
      seen (read_table_at project dataset table (some snapshot_time))
