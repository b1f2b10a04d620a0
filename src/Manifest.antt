-- ===== src/Manifest.antt =====
-- internal/manifest/manifest.go: the manifest of a table's exported files. The JSON of `Serialize`
-- and `Deserialize` is that of encoding/json on this record. An int64 is its
-- 64 bits, as in the hashing reader: the numbers from 2^63 on stand for negative ones.
pub mod Laws
mod Examples
use bqcubbit.Base.{
  ℕ, ◌+◌, Text, str_eq, codes, Bool, true, false, ◌||◌, List, [], ◌∷◌, ◌++◌, map, any,
  if◌then◌else◌, ◌%◌,
}
use bqcubbit.Hash.{int64_values}

pub record PartitionRef : Type 0 where
  pub partition_id : Text
  pub row_count : ℕ

pub record FileInfo : Type 0 where
  pub path : Text
  pub size : ℕ
  pub row_count : ℕ
  pub sha256 : Text

pub record TableManifest : Type 0 where
  pub schema_version : Text
  pub exported_at : Text
  pub partition_refs : List PartitionRef
  pub row_count : ℕ
  pub bytes_in_cubbit : ℕ
  pub files : List FileInfo

-- `New`, on the time as RFC 3339 text.
unfoldable pub new : Text → TableManifest
new exported_at = record {
  schema_version = codes "v1";
  exported_at = exported_at;
  partition_refs = [];
  row_count = 0;
  bytes_in_cubbit = 0;
  files = [];
}

-- The three writes that `AddFile` and the loop of `Merge` make for one file.
unfoldable pub append_file : FileInfo → TableManifest → TableManifest
append_file f m = record m {
  files = m.files ++ f ∷ [];
  row_count = (m.row_count + f.row_count) % int64_values;
  bytes_in_cubbit = (m.bytes_in_cubbit + f.size) % int64_values;
}

unfoldable pub add_file : Text → ℕ → ℕ → Text → TableManifest → TableManifest
unfolding append_file
add_file path size row_count sha256 =
    append_file (record { path = path; size = size; row_count = row_count; sha256 = sha256 })

-- `paths[p]`
abbrev pub has_path : Text → List Text → Bool
has_path p ps = any (λ q. str_eq q p) ps

-- The second loop of `Merge`, over the files of the other manifest; `paths` are the keys of the
-- map.
unfoldable pub merge_files : List FileInfo → List Text → TableManifest → TableManifest
unfolding append_file
merge_files [] paths m = m
merge_files (f ∷ fs) paths m = elim (has_path f.path paths) [
  | true ↦ merge_files fs paths m
  | false ↦ merge_files fs (f.path ∷ paths) (append_file f m)
]

unfoldable pub merge : TableManifest → TableManifest → TableManifest
unfolding merge_files
merge m other = merge_files other.files (map (λ f. f.path) m.files) m
