-- ===== src/Verify.antt =====
-- internal/verify: the check of the rows of a partition. The BigQuery client is an argument: for
-- the text of a query and the value of its parameter, the count that its first row holds.
use bqcubbit.Base.{ℕ, Text, codes, Bool, Option, none, some, ◌++◌, ◌==◌, true, false}

-- `Result`; its members for bytes are never set.
pub record Verdict : Type 0 where
  pub table_dataset : Text
  pub table_name : Text
  pub partition_id : Text
  pub bq_row_count : ℕ
  pub cubbit_row_count : ℕ
  pub row_count_match : Bool
  pub bq_bytes : ℕ
  pub cubbit_bytes : ℕ

pub data VerifyError : Type 0 where
  query_failed row_not_read : VerifyError

pub data Verified : Type 0 where
  verified : Verdict → Verified
  not_verified : VerifyError → Verified

unfoldable pub count_query : Text → Text → Text → Text
count_query project dataset table =
    codes "SELECT COUNT(*) as cnt FROM `"
    ++ (project
        ++ (codes "."
            ++ (dataset
                ++ (codes "."
                    ++ (table ++ codes "` WHERE _PARTITIONTIME = TIMESTAMP(@partition_id)")))))

unfoldable pub verdict_of : Text → Text → Text → ℕ → Option (Option ℕ) → Verified
verdict_of dataset table partition_id expected none = not_verified query_failed
verdict_of dataset table partition_id expected (some none) = not_verified row_not_read
verdict_of dataset table partition_id expected (some (some cnt)) = verified (record {
  table_dataset = dataset;
  table_name = table;
  partition_id = partition_id;
  bq_row_count = cnt;
  cubbit_row_count = expected;
  row_count_match = cnt == expected;
  bq_bytes = 0;
  cubbit_bytes = 0;
})

-- `VerifyPartition`
unfoldable pub verify_partition :
    (Text → Text → Option (Option ℕ)) → Text → Text → Text → Text → ℕ → Verified
unfolding verdict_of count_query
verify_partition query project dataset table partition_id expected =
    verdict_of dataset table partition_id expected
      (query (count_query project dataset table) partition_id)

-- `RunCLI`, which makes a client, if it can, and verifies nothing.
unfoldable pub run_cli : Bool → Bool
run_cli true = true
run_cli false = false
