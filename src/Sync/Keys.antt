-- ===== src/Sync/Keys.antt =====
-- internal/sync/sync.go and executor.go: the keys of the objects that an export writes, from what
-- fmt.Sprintf and the clock give.
use bqcubbit.Base.{
  ℕ, zero, suc, ◌+◌, ◌/◌, ◌%◌, Text, codes, List, [], ◌∷◌, ◌++◌, ltb, if◌then◌else◌,
}

-- What one call reads of the clock, with its texts in the layouts that the code asks for.
pub record Now : Type 0 where
  pub seconds : ℕ
  pub millis : ℕ
  -- 150405
  pub time_text : Text
  -- 2006-01-02T15-04-05
  pub date_time_text : Text
  -- RFC 3339
  pub stamp : Text

-- The digits of a number, in front of others; a number has fewer digits than it is large, and one
-- more.
unfoldable pub decimal_onto : ℕ → ℕ → Text → Text
decimal_onto zero n ds = ds
decimal_onto (suc fuel) n ds =
    let rest = decimal_onto fuel (n / 10) ((48 + n % 10) ∷ ds) in
    if ltb n 10 then (48 + n) ∷ ds else rest

-- %d
unfoldable pub decimal : ℕ → Text
unfolding decimal_onto
decimal n = decimal_onto (suc n) n []

-- %05d of a number below 100000.
unfoldable pub five_digits : ℕ → Text
five_digits n =
    (48 + n / 10000 % 10)
    ∷ (48 + n / 1000 % 10)
    ∷ (48 + n / 100 % 10)
    ∷ (48 + n / 10 % 10)
    ∷ (48 + n % 10)
    ∷ []

-- The parts of a path with slashes between them.
unfoldable pub slashed : Text → List Text → Text
slashed t [] = t
slashed t (u ∷ us) = t ++ (codes "/" ++ slashed u us)

-- "schema_version=v%d"
unfoldable pub version_part : ℕ → Text
unfolding decimal
version_part version = codes "schema_version=v" ++ decimal version

-- `stagingKey` of `exportBatch`
unfoldable pub batch_staging_key : Now → Text → Text → Text
unfolding slashed
batch_staging_key now table start =
    slashed (codes "_staging") (table ∷ start ∷ (now.time_text ++ codes ".parquet") ∷ [])

-- `finalKey` of `exportBatch`
unfoldable pub batch_final_key : Text → Text → ℕ → Text → Text → Text
unfolding slashed version_part
batch_final_key dataset table version start end =
    slashed dataset
      (table ∷ version_part version ∷ (start ++ (codes "_" ++ (end ++ codes ".parquet"))) ∷ [])

-- "part-%05d.zstd.parquet" of the milliseconds.
unfoldable pub part_name : Now → Text
unfolding five_digits
part_name now = codes "part-" ++ (five_digits (now.millis % 100000) ++ codes ".zstd.parquet")

-- `stagingKey` of `ExecuteTask`
unfoldable pub task_staging_key : Now → Text → Text → Text
unfolding slashed part_name
task_staging_key now table partition_id =
    slashed (codes "_staging") (table ∷ partition_id ∷ now.time_text ∷ part_name now ∷ [])

-- `finalKey` of `ExecuteTask`
unfoldable pub task_final_key : Now → Text → Text → ℕ → Text → Text
unfolding slashed version_part part_name
task_final_key now dataset table version partition_id =
    slashed dataset (table ∷ version_part version ∷ partition_id ∷ part_name now ∷ [])

-- strings.TrimRight(s, "/")
unfoldable pub trim_right_slashes : Text → Text
trim_right_slashes [] = []
trim_right_slashes (c ∷ cs) = elim (trim_right_slashes cs) [
  | [] ↦ if ltb c 47 then c ∷ [] else if ltb 47 c then c ∷ [] else []
  | d ∷ ds ↦ c ∷ d ∷ ds
]

-- "project=…/dataset=…/table=…" after the prefix of the destination.
unfoldable pub table_path : Text → Text → Text → Text → Text
unfolding slashed trim_right_slashes
table_path prefix project dataset table =
    slashed (trim_right_slashes prefix) (
      (codes "project=" ++ project)
      ∷ (codes "dataset=" ++ dataset)
      ∷ (codes "table=" ++ table)
      ∷ [])

-- `outputKey` of `SyncTable`
unfoldable pub table_output_key : Now → Text → Text → Text → Text → Text
unfolding slashed table_path
table_output_key now prefix project dataset table =
    slashed (table_path prefix project dataset table)
      (now.date_time_text ∷ codes "part-00000.zstd.parquet" ∷ [])

-- `manifestKey` of `SyncTable`
unfoldable pub table_manifest_key : Text → Text → Text → Text → Text
unfolding slashed table_path
table_manifest_key prefix project dataset table =
    slashed (table_path prefix project dataset table) (codes "_manifest.json" ∷ [])
