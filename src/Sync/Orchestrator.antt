-- ===== src/Sync/Orchestrator.antt =====
-- internal/sync/sync.go, `Orchestrator`, and executor.go, `TaskExecutor`: what they work with, and
-- how a table is written to the object store.
use bqcubbit.Base.{
  ℕ, suc, Text, Bool, false, Option, none, some, List, ◌%◌, arith, ◌≡◌, refl, length,
}
use bqcubbit.Config.{Config}
use bqcubbit.Hash.{Hasher, Reader, int64_values, absorb, new_reader, read, sha256, total_bytes}
use bqcubbit.Parquet.{Arrow, WriteOutcome, written, broken}
use bqcubbit.Storage.{full_key, S3, Client, Result, err, create_failed}
use bqcubbit.Storage.Multipart.{Body, BodyEnd, eof, read_full, upload_part_size, upload_multipart}
use bqcubbit.Storage.Multipart.Ends.{upload_multipart_ends}
use bqcubbit.State.Sqlite.{Store}
use bqcubbit.Sync.Manifests.{Codec}

-- The members of the two structs; `schema` and `read_table` are the answers of the BigQuery reader,
-- the latter the batches of the channel;
-- `put_broken` is what a PutObject leaves behind whose body breaks off after those bytes: it fails.
pub record Orchestrator : Type 1 where
  pub cfg : Config
  pub s3 : S3
  pub client : Client
  pub codec : Codec
  pub hasher : Hasher
  pub arrow : Arrow
  pub schema : Text → Text → Text → Option arrow.Schema
  pub read_table : Text → Text → Text → Option (List arrow.Batch)
  pub put_broken : Text → Text → s3.Service → s3.Service

-- The bucket and the database.
abbrev pub World : Orchestrator → Type 0
World o = o.s3.Service × Store

-- What the pipe gives to its reader: the bytes that were written, and the error of the writer.
unfoldable pub piped {ℓ} : {A : Type ℓ} → WriteOutcome A × Text → Body
piped (written r, content) = record { rest = content; ends = eof }
piped (broken e, content) = record { rest = content; ends = BodyEnd.broken }

module _ (o : Orchestrator) where
  -- The hashing reader once all of a body was read.
  unfoldable pub hashed : Body → Reader o.hasher Body
  hashed b = (read o.hasher read_full (suc (length b.rest)) (new_reader o.hasher b)).1

  -- `hashReader.TotalBytes()` and `hashReader.SHA256()` after the upload.
  unfoldable pub bytes_uploaded : Body → ℕ
  unfolding hashed
  bytes_uploaded b = total_bytes o.hasher (hashed b)

  unfoldable pub sha_uploaded : Body → Text
  unfolding hashed
  sha_uploaded b = sha256 o.hasher (hashed b)

  pub bytes_uploaded_lem : (b : Body) → bytes_uploaded b ≡ length b.rest % int64_values
  unfolding bytes_uploaded hashed new_reader read absorb read_full total_bytes
  bytes_uploaded_lem b = ground arith

  -- The bytes counted by the reader of a pipe are those that the writer wrote.
  pub bytes_uploaded-piped {ℓ} :
      {A : Type ℓ} (out : WriteOutcome A × Text)
      → bytes_uploaded (piped out) ≡ length out.1 % int64_values
  unfolding piped
  bytes_uploaded-piped (written r, content) =
      bytes_uploaded_lem (record { rest = content; ends = eof })
  bytes_uploaded-piped (broken e, content) =
      bytes_uploaded_lem (record { rest = content; ends = BodyEnd.broken })

  -- `UploadStream` of the reader of a pipe.
  unfoldable pub upload_pipe : Text → Body → o.s3.Service → Bool × o.s3.Service
  upload_pipe key b svc = elim b.ends [
    | BodyEnd.broken ↦ (false, o.put_broken (full_key o.client key) b.rest svc)
    | _ ↦ o.s3.put_object (full_key o.client key) b.rest svc
  ]

  -- `UploadMultipart` of the reader of a pipe.
  unfoldable pub upload_body : Text → Body → o.s3.Service → Result Text × o.s3.Service
  upload_body key b svc = elim (upload_multipart o.s3 upload_part_size o.client key b svc) [
    | none ↦ (err create_failed, svc)
    | some r ↦ r
  ]

  -- The loop of `UploadMultipart` is never out of fuel.
  pub upload_body_lem :
      (key : Text) (b : Body) (svc : o.s3.Service)
      → upload_multipart o.s3 upload_part_size o.client key b svc ≡ some (upload_body key b svc)
  unfolding upload_body
  upload_body_lem key b svc =
      let (r, done, failed) =
        upload_multipart_ends o.s3 upload_part_size o.client key (omega arith) b svc in
      rw (done, upload_body) refl
