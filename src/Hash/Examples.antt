-- ===== src/Hash/Examples.antt =====
-- A hashing reader on a text, with a hash that keeps what is written to it.
use bqcubbit.Base.{
  ◌%◌, ◌<◌, Text, none, some, [], ◌∷◌, ◌≡◌, refl, ltb, length, take, drop, if◌then◌else◌,
}
use bqcubbit.Storage.Multipart.{eof}
use bqcubbit.Hash.{
  int64_values, int64_limit, Read, Reader, new_reader, absorb, read, sha256, total_bytes,
}
use bqcubbit.Hash.Samples.{keeping, keeping_laws}
use bqcubbit.Hash.Reads.{reads, reads_exact}

abbrev read_text : Read Text
read_text size t = ((take size t, if ltb (length t) size then some eof else none), drop size t)

abbrev seven_bytes : Text
seven_bytes = 1 ∷ 2 ∷ 3 ∷ 4 ∷ 5 ∷ 6 ∷ 7 ∷ []

abbrev seven_read : Text × Reader keeping Text
seven_read = reads (read keeping read_text) (2 ∷ 0 ∷ 4 ∷ 4 ∷ []) (new_reader keeping seven_bytes)

seven_read_all : seven_read.0 ≡ seven_bytes
unfolding reads read absorb new_reader
seven_read_all = refl

reads_exact_example :
    (seven_read.0 ≡ (reads read_text (2 ∷ 0 ∷ 4 ∷ 4 ∷ []) seven_bytes).0)
    × (sha256 keeping seven_read.1 ≡ (reads read_text (2 ∷ 0 ∷ 4 ∷ 4 ∷ []) seven_bytes).0)
    × (total_bytes keeping seven_read.1
        ≡ length (reads read_text (2 ∷ 0 ∷ 4 ∷ 4 ∷ []) seven_bytes).0 % int64_values)
    × (length (reads read_text (2 ∷ 0 ∷ 4 ∷ 4 ∷ []) seven_bytes).0 < int64_limit
        → total_bytes keeping seven_read.1
          ≡ length (reads read_text (2 ∷ 0 ∷ 4 ∷ 4 ∷ []) seven_bytes).0)
reads_exact_example = reads_exact keeping keeping_laws read_text (2 ∷ 0 ∷ 4 ∷ 4 ∷ []) seven_bytes
