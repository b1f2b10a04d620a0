-- ===== src/Parquet.antt =====
-- internal/parquet/writer.go: the writer of Parquet files. The Arrow and Parquet libraries are a
-- parameter; what the writer passes to its io.Writer is the text that it returns.
pub mod Stream
pub mod Samples
mod Examples
use bqcubbit.Base.{
  ℕ, ◌+◌, ◌%◌, ◌*◌, Text, codes, str_eq, Bool, true, false, List, [], ◌∷◌, ◌++◌, ℤ, pos, length,
  if◌then◌else◌,
}
use bqcubbit.Hash.{int64_values}

-- What pqarrow makes of its calls: each passes some bytes on, and says whether it succeeded.
pub record Arrow : Type 1 where
  pub Schema : Type 0
  pub Batch : Type 0
  pub FileWriter : Type 0
  pub num_rows : Batch → ℕ
  pub new_file_writer : Schema → (Bool × Text) × FileWriter
  pub write : Batch → FileWriter → (Bool × Text) × FileWriter
  pub close : FileWriter → Bool × Text

pub record WriterConfig : Type 0 where
  pub compression : Text
  pub compression_level : ℤ
  pub row_group_size : ℕ
  pub dictionary_page_size : ℕ
  pub data_page_size : ℕ

unfoldable pub default_writer_config : WriterConfig
default_writer_config = record {
  compression = codes "zstd";
  compression_level = pos 9;
  row_group_size = 1024 * 1024;
  dictionary_page_size = 2 * 1024 * 1024;
  data_page_size = 1024 * 1024;
}

pub data Compression : Type 0 where
  zstd snappy : Compression

-- The codec that `NewWriter` chooses.
unfoldable pub codec_of : WriterConfig → Compression
codec_of cfg = if str_eq cfg.compression (codes "snappy") then snappy else zstd

-- `WriteResult`, its numbers as the 64 bits of an int64.
pub record WriteResult : Type 0 where
  pub total_bytes : ℕ
  pub row_count : ℕ

pub data WriteError : Type 0 where
  create_writer write_batch : WriteError

pub data WriteOutcome {ℓ} (A : Type ℓ) : Type ℓ where
  written : A → WriteOutcome A
  broken : WriteError → WriteOutcome A

module _ (a : Arrow) where
  open a use {Schema, Batch, FileWriter}

  -- `countingWriter`: the counter after a write of those bytes, all of which the pipe takes.
  unfoldable pub count_bytes : ℕ → Text → ℕ
  count_bytes n p = (n + length p) % int64_values

  -- The deferred `Close`, whose error is dropped.
  unfoldable pub close_writer : FileWriter → Text
  close_writer w = (a.close w).1

  -- The loop over the batches from a counter of bytes and one of rows, and the deferred `Close`:
  -- what is returned, and the bytes written.
  unfoldable pub write_batches : ℕ → ℕ → List Batch → FileWriter → WriteOutcome WriteResult × Text
  unfolding count_bytes close_writer
  write_batches n rows [] w =
      (written (record { total_bytes = n; row_count = rows }), close_writer w)
  write_batches n rows (b ∷ bs) w =
      let ((done, p), w') = a.write b w in
      let rest = write_batches (count_bytes n p) ((rows + a.num_rows b) % int64_values) bs w' in
      if done then (rest.0, p ++ rest.1) else (broken write_batch, p ++ close_writer w')

  unfoldable pub file_begun :
      List Batch → (Bool × Text) × FileWriter → WriteOutcome WriteResult × Text
  unfolding write_batches
  file_begun bs ((true, p), w) =
      let rest = write_batches (count_bytes 0 p) 0 bs w in (rest.0, p ++ rest.1)
  file_begun bs ((false, p), w) = (broken create_writer, p)

  unfoldable pub write_stream_result : Schema → List Batch → WriteOutcome WriteResult × Text
  unfolding file_begun
  write_stream_result schema bs = file_begun bs (a.new_file_writer schema)

  -- `WriteStream`, which counts nothing.
  unfoldable pub stream_batches : List Batch → FileWriter → WriteOutcome (Unit {0}) × Text
  unfolding close_writer
  stream_batches [] w = (written tt, close_writer w)
  stream_batches (b ∷ bs) w =
      let ((done, p), w') = a.write b w in
      let rest = stream_batches bs w' in
      if done then (rest.0, p ++ rest.1) else (broken write_batch, p ++ close_writer w')

  unfoldable pub plain_begun :
      List Batch → (Bool × Text) × FileWriter → WriteOutcome (Unit {0}) × Text
  unfolding stream_batches
  plain_begun bs ((true, p), w) = let rest = stream_batches bs w in (rest.0, p ++ rest.1)
  plain_begun bs ((false, p), w) = (broken create_writer, p)

  unfoldable pub write_stream : Schema → List Batch → WriteOutcome (Unit {0}) × Text
  unfolding plain_begun
  write_stream schema bs = plain_begun bs (a.new_file_writer schema)
