-- ===== src/BigQuery/Reader/Examples.antt =====
-- A stream that breaks off after one batch.
use bqcubbit.Base.{ℕ, Text, codes, false, none, some, [], ◌∷◌, ◌≡◌, refl}
use bqcubbit.BigQuery.Reader.{
  Session, ReadClient, Round, got, response, other_error, end_of_file, stream_rounds, schema_bytes,
  read_table, is_stream_done,
}
use bqcubbit.BigQuery.Reader.Stream.{failing, read_table_hides_errors}

abbrev one_batch : Round
one_batch = record { is_done = false; received = response (some (5 ∷ [])); cut = none }

abbrev one_session : Session
one_session = record { streams = codes "s" ∷ []; arrow_schema = some (8 ∷ []) }

-- Its records are the bytes that it reads.
abbrev breaking_client : ReadClient
breaking_client = record {
  Schema = Text;
  Record = ℕ;
  create_read_session = λ request. some one_session;
  parse_schema = λ content. some content;
  read_rows = λ name. some (one_batch ∷ failing other_error ∷ one_batch ∷ []);
  decode = λ content. some content;
}

broken_off : read_table breaking_client (codes "p") (codes "d") (codes "t") ≡ got (8 ∷ 5 ∷ [])
unfolding read_table is_stream_done
broken_off = refl

read_table_hides_errors_example :
    read_table breaking_client (codes "p") (codes "d") (codes "t")
    ≡ got
        (stream_rounds breaking_client
          (schema_bytes breaking_client one_session)
          (one_batch ∷ failing end_of_file ∷ [])).0
read_table_hides_errors_example =
    read_table_hides_errors breaking_client (codes "p") (codes "d") (codes "t") (codes "s")
      one_session [] (one_batch ∷ []) (one_batch ∷ []) other_error refl refl refl
