-- ===== src/Parquet/Samples.antt =====
-- A small file format: batches are texts, a file is its schema and its batches, and ends with a 0.
use bqcubbit.Base.{Text, true, false, [], ◌∷◌, ltb, length}
use bqcubbit.Parquet.{Arrow}

-- It takes no batch of more than three rows.
abbrev pub plain_arrow : Arrow
plain_arrow = record {
  Schema = Text;
  Batch = Text;
  FileWriter = Unit {0};
  num_rows = λ b. length b;
  new_file_writer = λ schema. ((true, schema), tt);
  write = λ b w. ((ltb (length b) 4, b), w);
  close = λ w. (false, 0 ∷ []);
}
