-- ===== src/Sync/Executor/Manifest.antt =====
-- internal/sync/executor.go, `updateManifest`. Unlike `mergeManifest` it heeds the errors of
-- io.ReadAll and of `Serialize`, which are arguments.
use bqcubbit.Base.{ℕ, Text, Bool, true, false, Option, none, some}
use bqcubbit.Storage.{S3, Client, Result, ok, err, object_exists, get_object, upload_stream}
use bqcubbit.Manifest.{TableManifest, new, add_file}
use bqcubbit.Sync.Manifests.{manifest_key, Codec, merge_existing}

pub data ManifestResult : Type 0 where
  manifest_written not_serialized not_uploaded : ManifestResult

module _ (s3 : S3) (codec : Codec) (c : Client) (now : Text) (read_all : Text → Option Text)
    (serialize : TableManifest → Option Text) where
  open s3 use {Service}

  unfoldable pub read_manifest : Option Text → TableManifest
  read_manifest none = new now
  read_manifest (some content) = merge_existing s3 codec c now (codec.deserialize content)

  unfoldable pub manifest_got : Result Text × Service → TableManifest × Service
  unfolding read_manifest
  manifest_got (ok content, s) = (read_manifest (read_all content), s)
  manifest_got (err e, s) = (new now, s)

  unfoldable pub manifest_found : Text → Bool × Service → TableManifest × Service
  unfolding manifest_got
  manifest_found key (true, s) = manifest_got (get_object s3 c key s)
  manifest_found key (false, s) = (new now, s)

  unfoldable pub uploaded_manifest : Result (Unit {0}) × Service → ManifestResult × Service
  uploaded_manifest (ok x, s) = (manifest_written, s)
  uploaded_manifest (err e, s) = (not_uploaded, s)

  unfoldable pub write_serialized : Text → Option Text → Service → ManifestResult × Service
  unfolding uploaded_manifest
  write_serialized key none s = (not_serialized, s)
  write_serialized key (some content) s = uploaded_manifest (upload_stream s3 c key content s)

  unfoldable pub update_manifest :
      Text → Text → Text → ℕ → Text → Service → ManifestResult × Service
  unfolding manifest_found write_serialized
  update_manifest dataset table file_path file_size sha256 s =
      let key = manifest_key dataset table in
      let (m, s') = manifest_found key (object_exists s3 c key s) in
      write_serialized key (serialize (add_file file_path file_size 0 sha256 m)) s'
