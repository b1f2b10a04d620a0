-- ===== src/Manifest/Laws.antt =====
-- The totals of a manifest, and what `Merge` adds.
use bqcubbit.Base.{
  ℕ, ◌+◌, Text, str_eq, str_eq_refl, str_eq_sym, eq_of_str_eq, Bool, Bool-cases, true, false, ◌||◌,
  List, [], ◌∷◌, ◌++◌, map, ◌≡◌, ◌≢◌, refl, sym, ap, subst, ◌∙◌, inl, inr, arith, none, find_where,
  Distinct, ◌%◌,
}
use bqcubbit.Hash.{int64_values}
use mathlib.Core.List.{append-nil, append_assoc}
use bqcubbit.Manifest.{FileInfo, TableManifest, append_file, add_file, has_path, merge_files, merge}

abbrev pub sum_of : (FileInfo → ℕ) → List FileInfo → ℕ
sum_of f [] = 0
sum_of f (x ∷ xs) = f x + sum_of f xs

-- The counters are the sums over the files, as int64.
pub record IsTotalled (m : TableManifest) : Type 0 where
  pub rows : m.row_count ≡ sum_of (λ f. f.row_count) m.files % int64_values
  pub bytes : m.bytes_in_cubbit ≡ sum_of (λ f. f.size) m.files % int64_values

-- The paths of a list of files.
abbrev pub paths_of : List FileInfo → List Text
paths_of fs = map (λ f. f.path) fs

abbrev same_path : FileInfo → FileInfo → Bool
same_path f g = str_eq g.path f.path

-- No two files have one path.
abbrev pub DistinctPaths : List FileInfo → Type 0
DistinctPaths = Distinct same_path

sum_of-append :
    (f : FileInfo → ℕ) (xs ys : List FileInfo) → sum_of f (xs ++ ys) ≡ sum_of f xs + sum_of f ys
sum_of-append f [] ys = omega arith
sum_of-append f (x ∷ xs) ys = omega (arith, sum_of-append f xs ys)

append_file-IsTotalled :
    (f : FileInfo) (m : TableManifest) → IsTotalled m → IsTotalled (append_file f m)
unfolding append_file
append_file-IsTotalled f m v = record {
  rows = omega (arith, v.rows, sum_of-append (λ g. g.row_count) m.files (f ∷ []));
  bytes = omega (arith, v.bytes, sum_of-append (λ g. g.size) m.files (f ∷ []));
}

-- The files that `Merge` takes over: of the paths not yet seen, the first file of each.
unfoldable pub fresh : List FileInfo → List Text → List FileInfo
fresh [] paths = []
fresh (f ∷ fs) paths = elim (has_path f.path paths) [
  | true ↦ fresh fs paths
  | false ↦ f ∷ fresh fs (f.path ∷ paths)
]

merge_files-files :
    (fs : List FileInfo) (paths : List Text) (m : TableManifest)
    → (merge_files fs paths m).files ≡ m.files ++ fresh fs paths
unfolding merge_files fresh
merge_files-files [] paths m = sym (append-nil m.files)
merge_files-files (f ∷ fs) paths m = elim (Bool-cases (has_path f.path paths)) [
  | inl seen ↦ rw (seen, merge_files, fresh) (merge_files-files fs paths m)
  | inr new' ↦
      rw (new', merge_files, fresh)
        (merge_files-files fs (f.path ∷ paths) (append_file f m)
          ∙ append_assoc m.files (f ∷ []) (fresh fs (f.path ∷ paths)))
]

merge_files-IsTotalled :
    (fs : List FileInfo) (paths : List Text) (m : TableManifest)
    → IsTotalled m
    → IsTotalled (merge_files fs paths m)
merge_files-IsTotalled [] paths m v = unfold merge_files in v
merge_files-IsTotalled (f ∷ fs) paths m v =
    step (merge_files-IsTotalled fs paths m v)
      (merge_files-IsTotalled fs (f.path ∷ paths) (append_file f m) (append_file-IsTotalled f m v))
  where
    step :
        IsTotalled (merge_files fs paths m)
        → IsTotalled (merge_files fs (f.path ∷ paths) (append_file f m))
        → IsTotalled (merge_files (f ∷ fs) paths m)
    step old new' =
        unfold merge_files in
        elim (Bool-cases (has_path f.path paths)) [
          | inl seen ↦ rw (seen, merge_files) old
          | inr unseen ↦ rw (unseen, merge_files) new'
        ]

has_path_of_eq : (p q : Text) (ps : List Text) → p ≡ q → has_path p ps ≡ has_path q ps
has_path_of_eq p q ps e = ap (λ (x : Text). has_path x ps) e

fresh_avoids :
    (p : Text) (fs : List FileInfo) (paths : List Text)
    → has_path p paths ≡ true
    → find_where (λ g. str_eq g.path p) (fresh fs paths) ≡ none
unfolding fresh
fresh_avoids p [] paths h = refl
fresh_avoids p (f ∷ fs) paths h = elim (Bool-cases (has_path f.path paths)) [
  | inl seen ↦ rw (seen, fresh) (fresh_avoids p fs paths h)
  | inr unseen ↦
      let later : find_where (λ g. str_eq g.path p) (fresh fs (f.path ∷ paths)) ≡ none =
        fresh_avoids p fs (f.path ∷ paths) (rw h (ground arith)) in
      rw (unseen, fresh) (ground (arith, eq_of_str_eq f.path p, has_path_of_eq f.path p paths))
]

fresh-DistinctPaths : (fs : List FileInfo) (paths : List Text) → DistinctPaths (fresh fs paths)
unfolding fresh
fresh-DistinctPaths [] paths = tt
fresh-DistinctPaths (f ∷ fs) paths = elim (Bool-cases (has_path f.path paths)) [
  | inl seen ↦ rw (seen, fresh) (fresh-DistinctPaths fs paths)
  | inr unseen ↦
      rw (unseen, fresh)
        (
          fresh_avoids f.path fs (f.path ∷ paths) (rw (str_eq_refl f.path)),
          fresh-DistinctPaths fs (f.path ∷ paths),
        )
]

none_append :
    (p : FileInfo → Bool) (xs ys : List FileInfo)
    → find_where p xs ≡ none
    → find_where p ys ≡ none
    → find_where p (xs ++ ys) ≡ none
none_append p [] ys e d = d
none_append p (x ∷ xs) ys e d = ground (arith, none_append p xs ys)

append_fresh-DistinctPaths :
    (xs fs : List FileInfo) (paths : List Text)
    → DistinctPaths xs
    → ((p : Text) → has_path p (paths_of xs) ≡ true → has_path p paths ≡ true)
    → DistinctPaths (xs ++ fresh fs paths)
append_fresh-DistinctPaths [] fs paths d h = fresh-DistinctPaths fs paths
append_fresh-DistinctPaths (x ∷ xs) fs paths d h = (
  none_append (same_path x) xs (fresh fs paths) d.0
      (fresh_avoids x.path fs paths (h x.path (rw (str_eq_refl x.path)))),
  append_fresh-DistinctPaths xs fs paths d.1 (λ p k. h p (rw k (ground arith))),
)

fresh_paths :
    (p : Text) (fs : List FileInfo) (paths : List Text)
    → (has_path p (paths_of (fresh fs paths)) || has_path p paths)
      ≡ (has_path p (paths_of fs) || has_path p paths)
unfolding fresh
fresh_paths p [] paths = refl
fresh_paths p (f ∷ fs) paths = elim (Bool-cases (has_path f.path paths)) [
  | inl seen ↦
      rw (seen, fresh)
        (ground
          (arith, fresh_paths p fs paths, eq_of_str_eq f.path p, has_path_of_eq f.path p paths))
  | inr unseen ↦ rw (unseen, fresh) (ground (arith, fresh_paths p fs (f.path ∷ paths)))
]

has_path-append :
    (p : Text) (xs ys : List FileInfo)
    → has_path p (paths_of (xs ++ ys)) ≡ (has_path p (paths_of xs) || has_path p (paths_of ys))
has_path-append p [] ys = refl
has_path-append p (x ∷ xs) ys = ground (arith, has_path-append p xs ys)

-- Where the totals of the manifest in front are the sums over its files modulo 2^64 and it lists no
-- path twice, this is so after `Merge`, whatever the other manifest holds: the files in front stay,
-- of the others the first file of each new path follows, and the paths of the result are those of
-- either manifest.
pub merge_exact :
    (m other : TableManifest)
    → IsTotalled m
    → DistinctPaths m.files
    → IsTotalled (merge m other)
      × DistinctPaths (merge m other).files
      × ((merge m other).files ≡ m.files ++ fresh other.files (paths_of m.files))
      × ((p : Text)
          → has_path p (paths_of (merge m other).files)
            ≡ (has_path p (paths_of m.files) || has_path p (paths_of other.files)))
unfolding merge
merge_exact m other v d = (
  merge_files-IsTotalled other.files (paths_of m.files) m v,
  subst DistinctPaths (sym files_lem)
      (append_fresh-DistinctPaths m.files other.files (paths_of m.files) d (λ p h. h)),
  files_lem,
  λ p.
      ap (λ (fs : List FileInfo). has_path p (paths_of fs)) files_lem
      ∙ has_path-append p m.files (fresh other.files (paths_of m.files))
      ∙ ground (arith, fresh_paths p other.files (paths_of m.files)),
)
  where
    files_lem :
        (merge_files other.files (paths_of m.files) m).files
        ≡ m.files ++ fresh other.files (paths_of m.files)
    files_lem = merge_files-files other.files (paths_of m.files) m

-- `AddFile` of a path that the manifest lists already lists it once more, so that the paths are not
-- distinct, and counts its size and rows once more (modulo 2^64).
pub add_file_duplicates :
    (path : Text) (size row_count : ℕ) (sha256 : Text) (m : TableManifest)
    → has_path path (paths_of m.files) ≡ true
    → ¬ (DistinctPaths (add_file path size row_count sha256 m).files)
      × ((add_file path size row_count sha256 m).bytes_in_cubbit
          ≡ (m.bytes_in_cubbit + size) % int64_values)
      × ((add_file path size row_count sha256 m).row_count
          ≡ (m.row_count + row_count) % int64_values)
unfolding add_file
add_file_duplicates path size row_count sha256 m h = (twice m.files h, refl, refl)
  where
    file : FileInfo
    file = record { path = path; size = size; row_count = row_count; sha256 = sha256 }

    found :
        (x : FileInfo) (fs : List FileInfo)
        → str_eq x.path path ≡ true
        → find_where (same_path x) (fs ++ file ∷ []) ≢ none
    found x [] e d = ground (arith, str_eq_sym x.path path)
    found x (f ∷ fs) e d = ground (arith, found x fs e)

    twice :
        (fs : List FileInfo)
        → has_path path (paths_of fs) ≡ true
        → ¬ (DistinctPaths (fs ++ file ∷ []))
    twice [] h d = cc
    twice (f ∷ fs) h d = elim (Bool-cases (str_eq f.path path)) [
      | inl same ↦ found f fs same d.0
      | inr other ↦ twice fs (rw other at h) d.1
    ]
