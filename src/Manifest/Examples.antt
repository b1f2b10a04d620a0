-- ===== src/Manifest/Examples.antt =====
-- The theorems of the manifest at a concrete pair of manifests.
use bqcubbit.Base.{Text, codes, str_eq, ◌||◌, [], ◌∷◌, ◌++◌, ◌≡◌, refl}
use bqcubbit.Manifest.{FileInfo, TableManifest, new, has_path, merge}
use bqcubbit.Manifest.Laws.{IsTotalled, DistinctPaths, paths_of, fresh, merge_exact}

abbrev file : Text → FileInfo
file path = record { path = path; size = 10; row_count = 2; sha256 = [] }

abbrev first : TableManifest
first = record (new (codes "2024-01-01T00:00:00Z")) {
  row_count = 2;
  bytes_in_cubbit = 10;
  files = file (codes "x") ∷ [];
}

-- It lists one file twice.
abbrev second : TableManifest
second = record first { files = file (codes "y") ∷ file (codes "x") ∷ file (codes "y") ∷ [] }

merge_exact_example :
    IsTotalled (merge first second)
    × DistinctPaths (merge first second).files
    × ((merge first second).files ≡ first.files ++ fresh second.files (paths_of first.files))
    × ((p : Text)
        → has_path p (paths_of (merge first second).files)
          ≡ (has_path p (paths_of first.files) || has_path p (paths_of second.files)))
merge_exact_example = merge_exact first second (record { rows = refl; bytes = refl }) (refl, tt)

merge_run : (merge first second).files ≡ file (codes "x") ∷ file (codes "y") ∷ []
unfolding merge str_eq
merge_run = refl
