-- ===== src/Storage/Multipart/Parts.antt =====
-- What `UploadMultipart` returns, and what becomes of a body of several parts.
use bqcubbit.Base.{
  ℕ, suc, ◌+◌, ◌≤◌, ◌<◌, Text, Option, none, some, List, [], ◌∷◌, ◌≡◌, ◌≢◌, refl, ap, ◌∙◌, arith,
  length, length-append,
}
use bqcubbit.Storage.{
  S3, Client, StorageError, Result, ok, err, create_failed, part_failed, complete_failed, full_key,
  abort_multipart_upload,
}
use bqcubbit.Storage.Multipart.{
  broken, Body, completed_parts, completion, complete_upload, finish_upload, start_upload,
  upload_multipart,
}
use bqcubbit.Storage.Multipart.Chunks.{Chunking, no_bytes, short, full}
use bqcubbit.Storage.Multipart.Upload.{send, outcome, Counted, send-Counted, upload_loop-Sends}

-- The part numbers of a list of parts rise, as CompleteMultipartUpload demands.
abbrev pub IsAscending : List (Text × ℕ) → Type 0
IsAscending [] = Unit
IsAscending (p ∷ []) = Unit
IsAscending (p ∷ q ∷ ps) = (p.1 < q.1) × IsAscending (q ∷ ps)

-- S3 documents that a list of parts that is not in ascending order is refused (InvalidPartOrder).
pub record OrderLaw (s3 : S3) : Type 0 where
  pub refused :
      (key upload_id : Text) (parts : List (Text × ℕ)) (s : s3.Service)
      → ¬ (IsAscending parts)
      → (s3.complete_multipart_upload key upload_id parts s).0 ≡ none

module _ (s3 : S3) (part_size : ℕ) (c : Client) (key : Text) where
  open s3 use {Service}

  -- What the upload comes to once its parts are sent.
  unfoldable pub closing : Text → Result (List Text × ℕ) × Service → Result Text × Service
  closing upload_id (err e, s) = (err e, s)
  closing upload_id (ok parts, s) =
      complete_upload s3 part_size c key upload_id (completed_parts s3 part_size c key parts) s

  unfoldable pub delivered : List Text → Option Text × Service → Result Text × Service
  unfolding closing
  delivered parts (none, s) = (err create_failed, s)
  delivered parts (some upload_id, s) =
      closing upload_id (outcome s3 c key upload_id 0 [] (send s3 c key upload_id 0 parts s))

  finish-closing :
      (upload_id : Text) (r : Result (List Text × ℕ) × Service)
      → finish_upload s3 part_size c key upload_id (some r) ≡ some (closing upload_id r)
  unfolding finish_upload closing
  finish-closing upload_id (err e, s) = refl
  finish-closing upload_id (ok parts, s) = refl

  start_upload_exact :
      (body : Body)
      → 0 < part_size
      → body.ends ≢ broken
      → (r : Option Text × Service)
      → (parts : List Text) × Chunking part_size body.rest parts
        × (start_upload s3 part_size c key body r ≡ some (delivered parts r))
  unfolding start_upload delivered
  start_upload_exact body positive sound (none, s) =
      let (parts, k, sends) =
        upload_loop-Sends s3 c key [] part_size positive (suc (length body.rest)) body sound
          (omega arith) in
      (parts, k, refl)
  start_upload_exact body positive sound (some upload_id, s) =
      let (parts, k, sends) =
        upload_loop-Sends s3 c key upload_id part_size positive (suc (length body.rest)) body sound
          (omega arith) in
      (
        parts,
        k,
        ap (finish_upload s3 part_size c key upload_id) (sends 0 [] s)
            ∙ finish-closing upload_id
                (outcome s3 c key upload_id 0 [] (send s3 c key upload_id 0 parts s)),
      )

  -- Where parts have a size, a body that does not break off with an error of its own,
  -- io.ErrUnexpectedEOF aside, is cut into full parts and a last shorter one, and the loop always
  -- ends: the upload is created, the parts are sent in order under the numbers from 1, the first
  -- failure aborts the upload and is returned, and after the last part the upload is completed with
  -- all ETags, each under the last part number.
  pub upload_multipart_exact :
      (body : Body) (s : Service)
      → 0 < part_size
      → body.ends ≢ broken
      → (parts : List Text) × Chunking part_size body.rest parts
        × (upload_multipart s3 part_size c key body s
            ≡ some (delivered parts (s3.create_multipart_upload (full_key c key) s)))
  unfolding upload_multipart
  upload_multipart_exact body s positive sound =
      start_upload_exact body positive sound (s3.create_multipart_upload (full_key c key) s)

  two_parts :
      (content : Text) (parts : List Text)
      → Chunking part_size content parts
      → part_size < length content
      → (x y : Text) × (rest : List Text) × (parts ≡ x ∷ y ∷ rest)
  two_parts content parts no_bytes more = absurd (omega (arith, more))
  two_parts content parts (short some_left less) more = absurd (omega (arith, less, more))
  two_parts content parts (full {rest = []} {chunk = x} same size no_bytes) more = absurd (
      let z : length content ≡ length x + 0 = ap length same ∙ length-append x [] in
      omega (arith, z, size, more))
  two_parts content parts (full {chunk = x} same size (short {content = y} some_left less)) more =
      (x, y, [], refl)
  two_parts content parts (full {chunk = x} same size (full {chunk = y} {parts = ys} same' size' k))
        more =
      (x, y, ys, refl)

  -- The numbers of the parts: as many as were sent, all one.
  flat :
      (ts : List Text) (n : ℕ)
      → 2 ≤ length ts
      → ¬ (IsAscending (completed_parts s3 part_size c key (ts, n)))
  flat [] n h up = absurd (omega (arith, h))
  flat (t ∷ []) n h up = absurd (omega (arith, h))
  flat (t ∷ u ∷ ts) n h up = omega (arith, up.0)

  module _ (law : OrderLaw s3) where
    completion_fails :
        (upload_id : Text) (r : Option Text × Service)
        → r.0 ≡ none
        → (e : StorageError) × (s' : Service) × (completion s3 part_size c key upload_id r
            ≡ (err e, s'))
    unfolding completion
    completion_fails upload_id (none, s) e =
        (complete_failed, (abort_multipart_upload s3 c key upload_id s).1, refl)
    completion_fails upload_id (some t, s) e = absurd (cc)

    complete_fails :
        (upload_id : Text) (ts : List Text) (n : ℕ) (s : Service)
        → 2 ≤ length ts
        → (e : StorageError) × (s' : Service) × (complete_upload s3 part_size c key upload_id
              (completed_parts s3 part_size c key (ts, n))
              s
            ≡ (err e, s'))
    unfolding complete_upload
    complete_fails upload_id ts n s h =
        completion_fails upload_id
          (s3.complete_multipart_upload (full_key c key) upload_id
            (completed_parts s3 part_size c key (ts, n)) s)
          (law.refused (full_key c key) upload_id (completed_parts s3 part_size c key (ts, n)) s
            (flat ts n h))

    closing_fails :
        (upload_id : Text) (m : ℕ) (r : Option (List Text) × Service)
        → Counted s3 c key upload_id m r
        → 2 ≤ m
        → (e : StorageError) × (s' : Service) × (closing upload_id
              (outcome s3 c key upload_id 0 [] r)
            ≡ (err e, s'))
    unfolding outcome closing Counted
    closing_fails upload_id m (none, s) k h =
        (part_failed, (abort_multipart_upload s3 c key upload_id s).1, refl)
    closing_fails upload_id m (some ts, s) k h =
        complete_fails upload_id ts (0 + length ts) s (omega (arith, k, h))

    delivered_fails :
        (parts : List Text) (r : Option Text × Service)
        → 2 ≤ length parts
        → (e : StorageError) × (s' : Service) × (delivered parts r ≡ (err e, s'))
    unfolding delivered
    delivered_fails parts (none, s) h = (create_failed, s, refl)
    delivered_fails parts (some upload_id, s) h =
        closing_fails upload_id (length parts) (send s3 c key upload_id 0 parts s)
          (send-Counted s3 c key upload_id 0 parts s) h

  -- Where S3 refuses parts that are not in ascending order, a body longer than one part, which does
  -- not break off with an error of its own, is never uploaded: its upload always ends, with an
  -- error.
  pub upload_multipart_large_fails :
      (law : OrderLaw s3) (body : Body) (s : Service)
      → 0 < part_size
      → body.ends ≢ broken
      → part_size < length body.rest
      → (e : StorageError) × (s' : Service) × (upload_multipart s3 part_size c key body s
          ≡ some (err e, s'))
  upload_multipart_large_fails law body s positive sound large =
      let (parts, k, done) = upload_multipart_exact body s positive sound in
      let (x, y, rest, two) = two_parts body.rest parts k large in
      let (e, s', failed) =
        delivered_fails law parts (s3.create_multipart_upload (full_key c key) s)
          (omega (arith, ap length two)) in
      (e, s', done ∙ ap some failed)
