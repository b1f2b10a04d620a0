-- ===== src/Sync/Manifests.antt =====
-- internal/sync/sync.go, `mergeManifest`. What encoding/json makes of a manifest is an argument;
-- the bytes of an object are read to their end.
pub mod Twice
mod Examples
use bqcubbit.Base.{ℕ, Text, codes, Bool, true, false, Option, none, some, List, [], ◌∷◌, ◌++◌}
use bqcubbit.Storage.{S3, Client, Result, ok, err, object_exists, get_object, upload_stream}
use bqcubbit.Manifest.{TableManifest, new, add_file, merge}

-- `Serialize` and `Deserialize`
pub record Codec : Type 0 where
  pub serialize : TableManifest → Text
  pub deserialize : Text → Option TableManifest

abbrev pub manifest_key : Text → Text → Text
manifest_key dataset table = dataset ++ (codes "/" ++ (table ++ codes "/_manifest.json"))

module _ (s3 : S3) (codec : Codec) (c : Client) (now : Text) where
  open s3 use {Service}

  -- if err == nil { m.Merge(existing) }
  unfoldable pub merge_existing : Option TableManifest → TableManifest
  merge_existing none = new now
  merge_existing (some existing) = merge (new now) existing

  unfoldable pub read_existing : Result Text × Service → TableManifest × Service
  unfolding merge_existing
  read_existing (ok content, s) = (merge_existing (codec.deserialize content), s)
  read_existing (err e, s) = (new now, s)

  unfoldable pub if_exists : Text → Bool × Service → TableManifest × Service
  unfolding read_existing
  if_exists key (true, s) = read_existing (get_object s3 c key s)
  if_exists key (false, s) = (new now, s)

  -- The manifest that is written, and the bucket before the write.
  unfoldable pub updated_manifest :
      Text → Text → Text → ℕ → Text → Service → TableManifest × Service
  unfolding if_exists
  updated_manifest dataset table file_path file_size sha256 s =
      let (m, s') =
        if_exists (manifest_key dataset table)
          (object_exists s3 c (manifest_key dataset table) s) in
      (add_file file_path file_size 0 sha256 m, s')

  unfoldable pub merge_manifest :
      Text → Text → Text → ℕ → Text → Service → Result (Unit {0}) × Service
  unfolding updated_manifest
  merge_manifest dataset table file_path file_size sha256 s =
      let (m, s') = updated_manifest dataset table file_path file_size sha256 s in
      upload_stream s3 c (manifest_key dataset table) (codec.serialize m) s'
