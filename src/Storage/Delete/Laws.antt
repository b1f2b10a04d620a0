-- ===== src/Storage/Delete/Laws.antt =====
-- What `DeleteObjects` deletes and counts.
use bqcubbit.Base.{
  ℕ, ◌+◌, Text, str_eq, Bool, true, false, not, ◌||◌, ◌&&◌, Option, none, some, List, [], ◌∷◌, ◌≡◌,
  ◌≢◌, refl, ◌∙◌, arith, any, if◌then◌else◌, length, Option-cases, inl, inr,
}
use bqcubbit.Storage.{S3, Client, StorageError, list_failed, delete_failed, full_key}
use bqcubbit.Storage.Delete.{delete_next, delete_pages, delete_objects}

abbrev pub has_key : Text → List Text → Bool
has_key k ks = any (λ j. str_eq j k) ks

-- A batch that was done: its keys, and those that S3 reported as not deleted.
abbrev pub Batch : Type 0
Batch = List Text × List Text

-- The key is one of the batch, and no error was reported for it.
abbrev pub is_deleted : Text → Batch → Bool
is_deleted k (keys, errors) = has_key k keys && not (has_key k errors)

-- What S3 documents of a batch: where the call succeeds, it deletes the keys for which it reports no
-- error and nothing else; refused, it deletes nothing.
pub record BatchLaws (s3 : S3) : Type 0 where
  pub object : s3.Service → Text → Option Text
  pub batch_done :
      (keys errors : List Text) (s : s3.Service)
      → (s3.delete_objects keys s).0 ≡ some errors
      → (k : Text)
      → object (s3.delete_objects keys s).1 k
        ≡ (if is_deleted k (keys, errors) then none else object s k)
  pub batch_refused :
      (keys : List Text) (s : s3.Service)
      → (s3.delete_objects keys s).0 ≡ none
      → (k : Text) → object (s3.delete_objects keys s).1 k ≡ object s k

-- The number of keys of the batches.
pub key_count : List Batch → ℕ
key_count [] = 0
key_count ((keys, errors) ∷ bs) = length keys + key_count bs

module _ (s3 : S3) where
  open s3 use {Service}

  -- From a service, the pages up to the end, or up to a page that fails or whose batch is refused:
  -- the batches that S3 did of them, with its reports, the error, and the service after it.
  pub data Handled
      : List (Option (List Text))
        → Service
        → List Batch
        → Option StorageError
        → Service
        → Type 0 where
    all_pages : {s : Service} → Handled [] s [] none s
    no_page :
        {pages : List (Option (List Text))} {s : Service}
        → Handled (none ∷ pages) s [] (some list_failed) s
    empty_page :
        {pages : List (Option (List Text))} {s t : Service} {bs : List Batch}
        {e : Option StorageError}
        → Handled pages s bs e t
        → Handled (some [] ∷ pages) s bs e t
    no_batch :
        {page : List Text} {pages : List (Option (List Text))} {s : Service}
        → page ≢ []
        → (s3.delete_objects page s).0 ≡ none
        → Handled (some page ∷ pages) s [] (some delete_failed) (s3.delete_objects page s).1
    page_done :
        {page errors : List Text} {pages : List (Option (List Text))} {s t : Service}
        {bs : List Batch} {e : Option StorageError}
        → page ≢ []
        → (s3.delete_objects page s).0 ≡ some errors
        → Handled pages (s3.delete_objects page s).1 bs e t
        → Handled (some page ∷ pages) s ((page, errors) ∷ bs) e t

  delete_pages-Handled :
      (pages : List (Option (List Text))) (total : ℕ) (s : Service)
      → (bs : List Batch) × Handled pages s bs
          (delete_pages s3 pages total s).0.1
          (delete_pages s3 pages total s).1
        × ((delete_pages s3 pages total s).0.0 ≡ total + key_count bs)
  unfolding delete_pages delete_next key_count
  delete_pages-Handled [] total s = ([], all_pages, omega arith)
  delete_pages-Handled (none ∷ pages) total s = ([], no_page, omega arith)
  delete_pages-Handled (some [] ∷ pages) total s =
      let (bs, h, n) = delete_pages-Handled pages total s in (bs, empty_page h, n)
  delete_pages-Handled (some (j ∷ js) ∷ pages) total s =
      elim (Option-cases (s3.delete_objects (j ∷ js) s).0) [
        | inl refused ↦ rw (refused, delete_next) ([], no_batch (λ e. cc) refused, omega arith)
        | inr (errors, done) ↦
            let (bs, h, n) =
              delete_pages-Handled pages (total + length (j ∷ js))
                (s3.delete_objects (j ∷ js) s).1 in
            rw (done, delete_next)
              ((j ∷ js, errors) ∷ bs, page_done (λ e. cc) done h, omega (arith, n))
      ]

if_either :
    (b c : Bool) (o : Option Text)
    → (if b then none else (if c then none else o)) ≡ (if c || b then none else o)
if_either true true o = refl
if_either true false o = refl
if_either false true o = refl
if_either false false o = refl

module _ (s3 : S3) (laws : BatchLaws s3) where
  Handled-object :
      {pages : List (Option (List Text))} {s t : s3.Service} {bs : List Batch}
      {e : Option StorageError}
      → Handled s3 pages s bs e t
      → (k : Text) → laws.object t k ≡ (if any (is_deleted k) bs then none else laws.object s k)
  Handled-object all_pages k = refl
  Handled-object no_page k = refl
  Handled-object (empty_page h) k = Handled-object h k
  Handled-object {s = s} (no_batch {page = page} some_keys refused) k =
      laws.batch_refused page s refused k
  Handled-object {s = s} (page_done {page = page} {errors = errors} {bs = bs} some_keys done h) k =
      Handled-object h k
      ∙ rw (laws.batch_done page errors s done k)
          (if_either (any (is_deleted k) bs) (is_deleted k (page, errors)) (laws.object s k))

  -- Where S3 deletes the keys of a batch for which it reports no error, and nothing else, or refuses
  -- the batch and deletes nothing: `DeleteObjects` hands the keys of the listed pages to S3, page by
  -- page, up to the first page that cannot be listed or whose batch is refused, and returns that
  -- error if there is one. It deletes the objects whose keys are in a batch that reports no error for
  -- them, and no others, but the number that it returns counts all keys of the batches.
  pub delete_objects_exact :
      (c : Client) (prefix : Text) (s : s3.Service)
      → (bs : List Batch) × Handled s3
          (s3.list_objects (full_key c prefix) s)
          s
          bs
          (delete_objects s3 c prefix s).0.1
          (delete_objects s3 c prefix s).1
        × ((delete_objects s3 c prefix s).0.0 ≡ key_count bs)
        × ((k : Text)
            → laws.object (delete_objects s3 c prefix s).1 k
              ≡ (if any (is_deleted k) bs then none else laws.object s k))
  unfolding delete_objects
  delete_objects_exact c prefix s =
      let (bs, h, n) = delete_pages-Handled s3 (s3.list_objects (full_key c prefix) s) 0 s in
      (bs, h, omega (arith, n), Handled-object h)
