-- ===== src/Parquet/Stream.antt =====
-- What `WriteStreamResult` and `WriteStream` write and report.
use bqcubbit.Base.{
  ℕ, ◌+◌, ◌%◌, ◌<◌, Text, Bool, Bool-cases, true, false, ◌&&◌, List, [], ◌∷◌, ◌++◌, ◌≡◌, ◌⊎◌, refl,
  sym, ap, ◌∙◌, inl, inr, arith, &&-true, length, length-append,
}
use mathlib.Core.List.{append_assoc}
use bqcubbit.Hash.{int64_values}
use bqcubbit.Parquet.{
  Arrow, WriteResult, WriteOutcome, written, broken, create_writer, write_batch, count_bytes,
  close_writer, write_batches, file_begun, write_stream_result, stream_batches, plain_begun,
  write_stream,
}

module _ (a : Arrow) where
  open a use {Schema, Batch, FileWriter}

  -- Every batch is written, from that writer on.
  abbrev pub all_written : List Batch → FileWriter → Bool
  all_written [] w = true
  all_written (b ∷ bs) w = (a.write b w).0.0 && all_written bs (a.write b w).1

  -- The bytes of all batches.
  abbrev pub bytes_of : List Batch → FileWriter → Text
  bytes_of [] w = []
  bytes_of (b ∷ bs) w = (a.write b w).0.1 ++ bytes_of bs (a.write b w).1

  abbrev pub last_writer : List Batch → FileWriter → FileWriter
  last_writer [] w = w
  last_writer (b ∷ bs) w = last_writer bs (a.write b w).1

  abbrev pub rows_of : List Batch → ℕ
  rows_of [] = 0
  rows_of (b ∷ bs) = a.num_rows b + rows_of bs

  -- What the loop returns and writes after all of its batches.
  abbrev pub result_of : ℕ → ℕ → List Batch → FileWriter → WriteOutcome WriteResult × Text
  result_of n rows bs w = (
    written (record {
      total_bytes = (n + length (bytes_of bs w)) % int64_values;
      row_count = (rows + rows_of bs) % int64_values;
    }),
    bytes_of bs w ++ (a.close (last_writer bs w)).1,
  )

  same_result :
      {n n' rows rows' : ℕ} {t t' : Text}
      → n ≡ n'
      → rows ≡ rows'
      → t ≡ t'
      → ◌≡◌ {A = WriteOutcome WriteResult × Text}
          (written (record { total_bytes = n; row_count = rows }), t)
          (written (record { total_bytes = n'; row_count = rows' }), t')
  same_result p q r = λ i. (written (record { total_bytes = p i; row_count = q i }), r i)

  write_batches_done :
      (n rows : ℕ) (bs : List Batch) (w : FileWriter)
      → n < int64_values
      → rows < int64_values
      → all_written bs w ≡ true
      → write_batches a n rows bs w ≡ result_of n rows bs w
  unfolding write_batches count_bytes close_writer
  write_batches_done n rows [] w hn hr all = same_result (omega arith) (omega arith) refl
  write_batches_done n rows (b ∷ bs) w hn hr all =
      let (first, others) = (&&-true (a.write b w).0.0 (all_written bs (a.write b w).1)).0 all in
      let rest : write_batches a ((n + length (a.write b w).0.1) % int64_values)
            ((rows + a.num_rows b) % int64_values) bs (a.write b w).1
          ≡ result_of ((n + length (a.write b w).0.1) % int64_values)
              ((rows + a.num_rows b) % int64_values) bs (a.write b w).1 =
        write_batches_done ((n + length (a.write b w).0.1) % int64_values)
          ((rows + a.num_rows b) % int64_values) bs (a.write b w).1 (omega arith) (omega arith)
          others in
      rw first (
        ap (λ (r : WriteOutcome WriteResult × Text). (r.0, (a.write b w).0.1 ++ r.1)) rest
        ∙ same_result (omega (arith, length-append (a.write b w).0.1 (bytes_of bs (a.write b w).1)))
            (omega arith)
            (sym (
              append_assoc (a.write b w).0.1 (bytes_of bs (a.write b w).1)
                (a.close (last_writer bs (a.write b w).1)).1)))

  write_batches_broken :
      (n rows : ℕ) (bs : List Batch) (w : FileWriter)
      → all_written bs w ≡ false
      → (write_batches a n rows bs w).0 ≡ broken write_batch
  unfolding write_batches
  write_batches_broken n rows [] w fails = cc
  write_batches_broken n rows (b ∷ bs) w fails = ground (
    arith,
    write_batches_broken (count_bytes a n (a.write b w).0.1) ((rows + a.num_rows b) % int64_values)
        bs (a.write b w).1,
  )

  stream_batches_same :
      (n rows : ℕ) (bs : List Batch) (w : FileWriter)
      → (stream_batches a bs w).1 ≡ (write_batches a n rows bs w).1
  unfolding write_batches stream_batches
  stream_batches_same n rows [] w = refl
  stream_batches_same n rows (b ∷ bs) w = ground (
    arith,
    stream_batches_same (count_bytes a n (a.write b w).0.1) ((rows + a.num_rows b) % int64_values)
        bs (a.write b w).1,
  )

  start_done :
      (p : Text) (bs : List Batch) (w : FileWriter)
      → all_written bs w ≡ true
      → write_batches a (count_bytes a 0 p) 0 bs w ≡ (
        written (record {
          total_bytes = length (p ++ bytes_of bs w) % int64_values;
          row_count = rows_of bs % int64_values;
        }),
        bytes_of bs w ++ (a.close (last_writer bs w)).1,
      )
  unfolding count_bytes
  start_done p bs w all =
      write_batches_done ((0 + length p) % int64_values) 0 bs w (omega arith) (omega arith) all
      ∙ same_result (omega (arith, length-append p (bytes_of bs w))) (omega arith) refl

  begun_exact :
      (bs : List Batch) (r : (Bool × Text) × FileWriter)
      → ((r.0.0 ≡ true)
          × (all_written bs r.1 ≡ true)
          × ((file_begun a bs r).0
              ≡ written (record {
                total_bytes = length (r.0.1 ++ bytes_of bs r.1) % int64_values;
                row_count = rows_of bs % int64_values;
              }))
          × ((file_begun a bs r).1
              ≡ r.0.1 ++ (bytes_of bs r.1 ++ (a.close (last_writer bs r.1)).1)))
        ⊎ (((r.0.0 ≡ false) × ((file_begun a bs r).0 ≡ broken create_writer))
            ⊎ ((r.0.0 ≡ true)
                × (all_written bs r.1 ≡ false)
                × ((file_begun a bs r).0 ≡ broken write_batch)))
  unfolding file_begun
  begun_exact bs ((false, p), w) = inr (inl (refl, refl))
  begun_exact bs ((true, p), w) = elim (Bool-cases (all_written bs w)) [
    | inl all ↦
        let done = start_done p bs w all in
        inl (
          refl,
          all,
          ap (λ (r : WriteOutcome WriteResult × Text). r.0) done,
          ap (λ (r : WriteOutcome WriteResult × Text). p ++ r.1) done,
        )
    | inr some_fails ↦
        inr (inr (refl, some_fails, write_batches_broken (count_bytes a 0 p) 0 bs w some_fails))
  ]

  -- `WriteStreamResult` succeeds exactly when the file writer is made and takes every batch. Then
  -- it returns the number of the rows of all batches, and that of the bytes written before the
  -- deferred `Close`, each modulo 2^64; the bytes that `Close` writes follow, and are not counted.
  -- Whether `Close` succeeds plays no part. Otherwise it returns the error of the call that failed.
  pub write_stream_result_exact :
      (schema : Schema) (bs : List Batch)
      → let r = a.new_file_writer schema in
        ((r.0.0 ≡ true)
          × (all_written bs r.1 ≡ true)
          × ((write_stream_result a schema bs).0
              ≡ written (record {
                total_bytes = length (r.0.1 ++ bytes_of bs r.1) % int64_values;
                row_count = rows_of bs % int64_values;
              }))
          × ((write_stream_result a schema bs).1
              ≡ r.0.1 ++ (bytes_of bs r.1 ++ (a.close (last_writer bs r.1)).1)))
        ⊎ (((r.0.0 ≡ false) × ((write_stream_result a schema bs).0 ≡ broken create_writer))
            ⊎ ((r.0.0 ≡ true)
                × (all_written bs r.1 ≡ false)
                × ((write_stream_result a schema bs).0 ≡ broken write_batch)))
  unfolding write_stream_result
  write_stream_result_exact schema bs = begun_exact bs (a.new_file_writer schema)

  begun_same :
      (bs : List Batch) (r : (Bool × Text) × FileWriter)
      → (plain_begun a bs r).1 ≡ (file_begun a bs r).1
  unfolding plain_begun file_begun
  begun_same bs ((true, p), w) =
      ap (λ (t : Text). p ++ t) (stream_batches_same (count_bytes a 0 p) 0 bs w)
  begun_same bs ((false, p), w) = refl

  -- The two ways to write a stream write the same bytes.
  pub write_stream_same :
      (schema : Schema) (bs : List Batch)
      → (write_stream a schema bs).1 ≡ (write_stream_result a schema bs).1
  unfolding write_stream write_stream_result
  write_stream_same schema bs = begun_same bs (a.new_file_writer schema)
