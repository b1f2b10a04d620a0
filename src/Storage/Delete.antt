-- ===== src/Storage/Delete.antt =====
-- internal/storage/cubbit.go, the calls that go through pages: `ListObjects`, `DeleteObjects`,
-- `AbortStaleUploads`.
pub mod Laws
use bqcubbit.Base.{
  ℕ, ◌+◌, ◌-◌, Text, codes, Bool, true, false, ◌&&◌, Option, none, some, List, [], ◌∷◌, ◌++◌, ltb,
  ◌==◌, if◌then◌else◌, length,
}
use bqcubbit.Storage.{
  S3, Client, PendingUpload, StorageError, Result, ok, err, list_failed, delete_failed, full_key,
}

-- The loop of `ListObjects` over the pages.
unfoldable pub collect_keys : List Text → List (Option (List Text)) → Result (List Text)
collect_keys keys [] = ok keys
collect_keys keys (none ∷ pages) = err list_failed
collect_keys keys (some page ∷ pages) = collect_keys (keys ++ page) pages

-- time.Since(initiated) > maxAge; a time that is missing counts as recent.
abbrev pub is_stale_upload : ℕ → ℕ → PendingUpload → Bool
is_stale_upload now max_age u = elim u.initiated [ none ↦ false | some t ↦ ltb (t + max_age) now ]

module _ (s3 : S3) where
  open s3 use {Service}

  unfoldable pub list_objects : Client → Text → Service → Result (List Text)
  unfolding collect_keys
  list_objects c prefix s = collect_keys [] (s3.list_objects (full_key c prefix) s)

  -- The answer to one batch; `rec` is the loop over the other pages. The errors that it reports for
  -- single keys are not looked at.
  unfoldable pub delete_next :
      (ℕ → Service → (ℕ × Option StorageError) × Service)
      → ℕ
      → ℕ
      → Option (List Text) × Service
      → (ℕ × Option StorageError) × Service
  delete_next rec total batch (some errors, s) = rec (total + batch) s
  delete_next rec total batch (none, s) = ((total, some delete_failed), s)

  -- The loop of `DeleteObjects`. It returns the number of keys of the batches so far with an error.
  unfoldable pub delete_pages :
      List (Option (List Text)) → ℕ → Service → (ℕ × Option StorageError) × Service
  unfolding delete_next
  delete_pages [] total s = ((total, none), s)
  delete_pages (none ∷ pages) total s = ((total, some list_failed), s)
  delete_pages (some [] ∷ pages) total s = delete_pages pages total s
  delete_pages (some (k ∷ ks) ∷ pages) total s =
      delete_next (delete_pages pages) total (length (k ∷ ks)) (s3.delete_objects (k ∷ ks) s)

  unfoldable pub delete_objects : Client → Text → Service → (ℕ × Option StorageError) × Service
  unfolding delete_pages
  delete_objects c prefix s = delete_pages (s3.list_objects (full_key c prefix) s) 0 s

  -- One page of `AbortStaleUploads`; an abort that fails is only logged.
  unfoldable pub abort_page : ℕ → ℕ → List PendingUpload → Service → Service
  abort_page now max_age [] s = s
  abort_page now max_age (u ∷ us) s =
      abort_page now max_age us (elim (is_stale_upload now max_age u) [
        | true ↦ (s3.abort_multipart_upload u.key u.upload_id s).1
        | false ↦ s
      ])

  unfoldable pub abort_pages :
      ℕ → ℕ → List (Option (List PendingUpload)) → Service → Result (Unit {0}) × Service
  unfolding abort_page
  abort_pages now max_age [] s = (ok tt, s)
  abort_pages now max_age (none ∷ pages) s = (err list_failed, s)
  abort_pages now max_age (some page ∷ pages) s =
      abort_pages now max_age pages (abort_page now max_age page s)

  unfoldable pub abort_stale_uploads : ℕ → ℕ → Service → Result (Unit {0}) × Service
  unfolding abort_pages
  abort_stale_uploads now max_age s = abort_pages now max_age (s3.list_multipart_uploads s) s
