-- ===== src/Sync/Manifests/Twice.antt =====
-- What becomes of the manifest when one file is exported twice.
use bqcubbit.Base.{
  ℕ, Text, str_eq_refl, Bool, Bool-cases, true, false, some, List, [], ◌∷◌, ◌++◌, ◌≡◌, refl, ap,
  ◌∙◌, inl, inr, arith,
}
use bqcubbit.Storage.{
  S3, Client, Result, ok, err, full_key, object_exists, get_object, upload_stream,
}
use bqcubbit.Manifest.{FileInfo, TableManifest, new, add_file, has_path, merge}
use bqcubbit.Manifest.Laws.{paths_of, DistinctPaths, merge_exact, add_file_duplicates}
use bqcubbit.Sync.Manifests.{
  Codec, manifest_key, merge_existing, read_existing, if_exists, updated_manifest, merge_manifest,
}

-- What S3 documents: an object that was put is there and is read as it was put.
pub record ReadBack (s3 : S3) : Type 0 where
  pub is_there :
      (key body : Text) (s : s3.Service)
      → (s3.put_object key body s).0 ≡ true
      → (s3.head_object key (s3.put_object key body s).1).0 ≡ true
  pub reads :
      (key body : Text) (s : s3.Service)
      → (s3.put_object key body s).0 ≡ true
      → (s3.get_object key (s3.head_object key (s3.put_object key body s).1).1).0 ≡ some body

has_added :
    (path : Text) (size rows : ℕ) (sha256 : Text) (m : TableManifest)
    → has_path path (paths_of (add_file path size rows sha256 m).files) ≡ true
unfolding add_file
has_added path size rows sha256 m = last m.files
  where
    last :
        (fs : List FileInfo)
        → has_path path (
            paths_of
              (fs ++ record { path = path; size = size; row_count = rows; sha256 = sha256 } ∷ []))
          ≡ true
    last [] = rw (str_eq_refl path)
    last (f ∷ fs) = rw (last fs) (ground arith)

has_merged :
    (now path : Text) (m : TableManifest)
    → has_path path (paths_of m.files) ≡ true
    → has_path path (paths_of (merge (new now) m).files) ≡ true
unfolding new
has_merged now path m h =
    let (totals, distinct, split, paths) =
      merge_exact (new now) m (record { rows = refl; bytes = refl }) tt in
    paths path ∙ h

module _ (s3 : S3) (codec : Codec) (laws : ReadBack s3) (c : Client) where
  put_done :
      (key body : Text) (s : s3.Service)
      → (upload_stream s3 c key body s).0 ≡ ok tt
      → (s3.put_object (full_key c key) body s).0 ≡ true
  unfolding upload_stream
  put_done key body s done = elim (Bool-cases (s3.put_object (full_key c key) body s).0) [
    | inl put ↦ put
    | inr refused ↦ absurd (cc (rw refused at done))
  ]

  got :
      (key body : Text) (s : s3.Service)
      → (s3.get_object (full_key c key) s).0 ≡ some body
      → (get_object s3 c key s).0 ≡ ok body
  unfolding get_object
  got key body s e = rw e

  existing :
      (now body : Text) (r : Result Text × s3.Service)
      → r.0 ≡ ok body
      → (read_existing s3 codec c now r).0 ≡ merge_existing s3 codec c now (codec.deserialize body)
  unfolding read_existing
  existing now body (ok x, s) e =
      let same : x ≡ body = cc in
      ap (λ (y : Text). merge_existing s3 codec c now (codec.deserialize y)) same
  existing now body (err x, s) e = absurd (cc)

  found :
      (now key body : Text) (r : Bool × s3.Service)
      → r.0 ≡ true
      → (get_object s3 c key r.1).0 ≡ ok body
      → (if_exists s3 codec c now key r).0 ≡ merge_existing s3 codec c now (codec.deserialize body)
  unfolding if_exists
  found now key body (true, s) e g = existing now body (get_object s3 c key s) g
  found now key body (false, s) e g = absurd (cc)

  -- What is read back after a manifest was uploaded.
  read_after :
      (now dataset table : Text) (m n : TableManifest) (s : s3.Service)
      → codec.deserialize (codec.serialize m) ≡ some n
      → (upload_stream s3 c (manifest_key dataset table) (codec.serialize m) s).0 ≡ ok tt
      → (if_exists s3 codec c now (manifest_key dataset table) (
          object_exists s3 c
            (manifest_key dataset table)
            (upload_stream s3 c (manifest_key dataset table) (codec.serialize m) s).1)).0
        ≡ merge (new now) n
  unfolding upload_stream object_exists merge_existing
  read_after now dataset table m n s round_trip done =
      let key : Text = manifest_key dataset table in
      let put : (s3.put_object (full_key c (manifest_key dataset table)) (codec.serialize m) s).0
          ≡ true =
        put_done (manifest_key dataset table) (codec.serialize m) s done in
      found now (manifest_key dataset table) (codec.serialize m) _
        (laws.is_there (full_key c (manifest_key dataset table)) (codec.serialize m) s put)
        (got (manifest_key dataset table) (codec.serialize m) _
          (laws.reads (full_key c (manifest_key dataset table)) (codec.serialize m) s put))
      ∙ ap (merge_existing s3 codec c now) round_trip

  -- Where an object that was put reads back, and the JSON of the manifest does: once
  -- `mergeManifest` has added a file, a second call for the same file, as when its batch is
  -- exported again, writes a manifest that lists the file twice.
  pub merge_manifest_twice :
      (now later dataset table path : Text) (size size' : ℕ) (sha256 sha256' : Text)
      (s : s3.Service)
      → codec.deserialize
          (codec.serialize (updated_manifest s3 codec c now dataset table path size sha256 s).0)
        ≡ some (updated_manifest s3 codec c now dataset table path size sha256 s).0
      → (merge_manifest s3 codec c now dataset table path size sha256 s).0 ≡ ok tt
      → ¬ (
          DistinctPaths
            (updated_manifest s3 codec c later dataset table path size' sha256'
              (merge_manifest s3 codec c now dataset table path size sha256 s).1).0.files)
  unfolding merge_manifest updated_manifest
  merge_manifest_twice now later dataset table path size size' sha256 sha256' s round_trip done =
      let (m, s') = updated_manifest s3 codec c now dataset table path size sha256 s in
      (add_file_duplicates path size' 0 sha256' _ (
        ap (λ (x : TableManifest). has_path path (paths_of x.files))
          (read_after later dataset table m m s' round_trip done)
        ∙ has_merged later path m (has_added path size 0 sha256 _))).0
