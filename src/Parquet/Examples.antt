-- ===== src/Parquet/Examples.antt =====
-- The theorems on Parquet streams at the small file format.
use bqcubbit.Base.{true, false, [], ◌∷◌, ◌≡◌, ◌⊎◌, refl, str_eq}
use bqcubbit.Parquet.{
  written, broken, create_writer, write_batch, write_stream_result, default_writer_config, codec_of,
  zstd,
}
use bqcubbit.Parquet.Samples.{plain_arrow}
use bqcubbit.Parquet.Stream.{all_written, write_stream_result_exact}

two_batches :
    write_stream_result plain_arrow (8 ∷ 8 ∷ []) ((1 ∷ 2 ∷ []) ∷ (3 ∷ []) ∷ [])
    ≡ (written (record { total_bytes = 5; row_count = 3 }), 8 ∷ 8 ∷ 1 ∷ 2 ∷ 3 ∷ 0 ∷ [])
unfolding write_stream_result
two_batches = refl

default_codec : codec_of default_writer_config ≡ zstd
unfolding codec_of default_writer_config str_eq
default_codec = refl

write_stream_result_exact_example :
    ((true ≡ true)
      × (all_written plain_arrow ((1 ∷ 2 ∷ []) ∷ (3 ∷ []) ∷ []) tt ≡ true)
      × ((write_stream_result plain_arrow (8 ∷ 8 ∷ []) ((1 ∷ 2 ∷ []) ∷ (3 ∷ []) ∷ [])).0
          ≡ written (record { total_bytes = 5; row_count = 3 }))
      × ((write_stream_result plain_arrow (8 ∷ 8 ∷ []) ((1 ∷ 2 ∷ []) ∷ (3 ∷ []) ∷ [])).1
          ≡ 8 ∷ 8 ∷ 1 ∷ 2 ∷ 3 ∷ 0 ∷ []))
    ⊎ (((true ≡ false)
          × ((write_stream_result plain_arrow (8 ∷ 8 ∷ []) ((1 ∷ 2 ∷ []) ∷ (3 ∷ []) ∷ [])).0
              ≡ broken create_writer))
        ⊎ ((true ≡ true)
            × (all_written plain_arrow ((1 ∷ 2 ∷ []) ∷ (3 ∷ []) ∷ []) tt ≡ false)
            × ((write_stream_result plain_arrow (8 ∷ 8 ∷ []) ((1 ∷ 2 ∷ []) ∷ (3 ∷ []) ∷ [])).0
                ≡ broken write_batch)))
write_stream_result_exact_example =
    write_stream_result_exact plain_arrow (8 ∷ 8 ∷ []) ((1 ∷ 2 ∷ []) ∷ (3 ∷ []) ∷ [])
