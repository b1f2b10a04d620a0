-- ===== src/Storage/Multipart.antt =====
-- internal/storage/cubbit.go, `UploadMultipart`. The part size is an argument; the program's
-- `uploadPartSize` is 16 MiB.
pub mod Chunks
pub mod Upload
pub mod Parts
pub mod Ends
use bqcubbit.Base.{
  ℕ, zero, suc, ◌+◌, ◌*◌, Text, Bool, true, false, Option, none, some, List, [], ◌∷◌, ◌++◌, map,
  ltb, ◌==◌, if◌then◌else◌, length, take, drop,
}
use bqcubbit.Storage.{
  S3, Client, StorageError, Result, ok, err, create_failed, read_failed, part_failed,
  complete_failed, full_key, abort_multipart_upload,
}

abbrev pub upload_part_size : ℕ
upload_part_size = 16777216

-- How a reader ends: io.EOF, io.ErrUnexpectedEOF or another error.
pub data BodyEnd : Type 0 where
  eof unexpected_eof broken : BodyEnd

-- An io.Reader: the bytes that it still gives, and how it ends.
pub record Body : Type 0 where
  pub rest : Text
  pub ends : BodyEnd

-- io.ReadFull on a buffer of that size: the bytes read, the error if there is one, and the reader.
unfoldable pub read_full : ℕ → Body → (Text × Option BodyEnd) × Body
read_full size b =
    if ltb (length b.rest) size
    then ((b.rest, some b.ends), record b { rest = [] })
    else ((take size b.rest, none), record b { rest = drop size b.rest })

-- readErr != nil && readErr != io.ErrUnexpectedEOF && readErr != io.EOF
abbrev pub is_read_error : Option BodyEnd → Bool
is_read_error (some broken) = true
is_read_error _ = false

module _ (s3 : S3) (part_size : ℕ) (c : Client) (key : Text) where
  open s3 use {Service}

  -- One round of the loop over what was read; `rec` is the rounds after it.
  unfoldable pub upload_round :
      (ℕ → List Text → Body → Service → Option (Result (List Text × ℕ) × Service))
      → Text
      → ℕ
      → List Text
      → (Text × Option BodyEnd) × Body
      → Service
      → Option (Result (List Text × ℕ) × Service)
  upload_round rec upload_id part_number etags ((chunk, read_err), b) s =
      elim (is_read_error read_err) [
        | true ↦ some (err read_failed, (abort_multipart_upload s3 c key upload_id s).1)
        | false ↦ elim (length chunk == 0) [
          | true ↦ some (ok (etags, part_number), s)
          | false ↦
              let (etag, s') =
                s3.upload_part (full_key c key) upload_id (part_number + 1) chunk s in
              elim etag [
                | none ↦ some (err part_failed, (abort_multipart_upload s3 c key upload_id s').1)
                | some t ↦ rec (part_number + 1) (etags ++ t ∷ []) b s'
              ]
        ]
      ]

  -- The loop over the parts, `none` if it is not done after that many rounds. It gives the ETags
  -- and the last value of `partNumber`.
  unfoldable pub upload_loop :
      Text → ℕ → ℕ → List Text → Body → Service → Option (Result (List Text × ℕ) × Service)
  unfolding read_full upload_round
  upload_loop upload_id zero part_number etags b s = none
  upload_loop upload_id (suc fuel) part_number etags b s =
      upload_round (upload_loop upload_id fuel) upload_id part_number etags (read_full part_size b)
        s

  -- `parts` when the upload is completed: each `CompletedPart` holds the address of the one
  -- variable `partNumber`, so all have its last value.
  abbrev pub completed_parts : List Text × ℕ → List (Text × ℕ)
  completed_parts (etags, part_number) = map (λ t. (t, part_number)) etags

  unfoldable pub completion : Text → Option Text × Service → Result Text × Service
  completion upload_id (none, s) =
      (err complete_failed, (abort_multipart_upload s3 c key upload_id s).1)
  completion upload_id (some etag, s) = (ok etag, s)

  unfoldable pub complete_upload : Text → List (Text × ℕ) → Service → Result Text × Service
  unfolding completion
  complete_upload upload_id parts s =
      completion upload_id (s3.complete_multipart_upload (full_key c key) upload_id parts s)

  -- What follows the loop.
  unfoldable pub finish_upload :
      Text → Option (Result (List Text × ℕ) × Service) → Option (Result Text × Service)
  unfolding complete_upload
  finish_upload upload_id none = none
  finish_upload upload_id (some (err e, s)) = some (err e, s)
  finish_upload upload_id (some (ok parts, s)) =
      some (complete_upload upload_id (completed_parts parts) s)

  -- What follows the request for an upload. The body has fewer parts than bytes, so one round more
  -- than it has bytes is enough.
  unfoldable pub start_upload : Body → Option Text × Service → Option (Result Text × Service)
  unfolding upload_loop finish_upload
  start_upload body (none, s) = some (err create_failed, s)
  start_upload body (some upload_id, s) =
      finish_upload upload_id (upload_loop upload_id (suc (length body.rest)) 0 [] body s)

  unfoldable pub upload_multipart : Body → Service → Option (Result Text × Service)
  unfolding start_upload
  upload_multipart body s = start_upload body (s3.create_multipart_upload (full_key c key) s)
