-- ===== src/Storage/Rename.antt =====
-- internal/storage/cubbit.go, `RenameObject`: a copy, then a delete.
use bqcubbit.Base.{
  Bool, not, any, ltb, ◌||◌, ◌==◌, Text, codes, Bool-cases, true, false, Option, none, ◌++◌, ◌≡◌,
  ◌≢◌, ◌⊎◌, sym, ◌∙◌, inl, inr, if◌then◌else◌,
}
use bqcubbit.Storage.{S3, Client, Result, ok, err, copy_failed, delete_failed, full_key}

module _ (s3 : S3) where
  open s3 use {Service}

  rename_delete : Client → Text → Service → Result (Unit {0}) × Service
  rename_delete c old s =
      let (deleted, s') = s3.delete_object (full_key c old) s in
      ((if deleted then ok tt else err delete_failed), s')

  unfoldable pub rename_object : Client → Text → Text → Service → Result (Unit {0}) × Service
  unfolding rename_delete
  rename_object c old new s =
      let (copied, s') =
        s3.copy_object (c.bucket ++ (codes "/" ++ full_key c old)) (full_key c new) s in
      if copied then rename_delete c old s' else (err copy_failed, s')

-- Visible ASCII without `%` and `+`, so that URL-decoding leaves it alone, and without `?`, which
-- begins the id of a version.
abbrev pub is_plain : Text → Bool
is_plain key =
    not (any (λ c. (ltb c 33 || ltb 126 c) || ((c == 37) || ((c == 43) || (c == 63)))) key)

-- What S3 documents of the calls: the objects of a bucket by key, what a copy and a delete do to
-- them, and that a call that S3 refuses does nothing. A copy names its source with the bucket in
-- front, and `url_decode` is the key that S3 reads in the text behind it.
pub record BucketLaws (s3 : S3) (bucket : Text) : Type 0 where
  pub object : s3.Service → Text → Option Text
  pub url_decode : Text → Text
  pub decode_plain : (key : Text) → is_plain key ≡ true → url_decode key ≡ key
  pub copy_done :
      (source key : Text) (s : s3.Service)
      → (s3.copy_object (bucket ++ (codes "/" ++ source)) key s).0 ≡ true
      → (object s (url_decode source) ≢ none)
        × (object (s3.copy_object (bucket ++ (codes "/" ++ source)) key s).1 key
            ≡ object s (url_decode source))
        × ((k : Text)
            → k ≢ key
            → object (s3.copy_object (bucket ++ (codes "/" ++ source)) key s).1 k ≡ object s k)
  pub copy_failed :
      (source key : Text) (s : s3.Service)
      → (s3.copy_object (bucket ++ (codes "/" ++ source)) key s).0 ≡ false
      → (k : Text)
      → object (s3.copy_object (bucket ++ (codes "/" ++ source)) key s).1 k ≡ object s k
  pub delete_done :
      (key : Text) (s : s3.Service)
      → (s3.delete_object key s).0 ≡ true
      → (object (s3.delete_object key s).1 key ≡ none)
        × ((k : Text) → k ≢ key → object (s3.delete_object key s).1 k ≡ object s k)
  pub delete_failed :
      (key : Text) (s : s3.Service)
      → (s3.delete_object key s).0 ≡ false
      → (k : Text) → object (s3.delete_object key s).1 k ≡ object s k

-- Where copies and deletes do what S3 documents, a rename of an object to another key copies the
-- object at the key that S3 reads in the old one, which is the old key itself where that is plain.
-- It either fails to copy and leaves all objects alone; or copies and fails to delete, then all
-- objects but that at the new key are as before; or succeeds, then the copied object was there and
-- is under the new key, and there is no object under the old key. No other object changes.
pub rename_object_exact :
    (s3 : S3) (c : Client) (laws : BucketLaws s3 c.bucket) (old new : Text) (s : s3.Service)
    → full_key c old ≢ full_key c new
    → ((laws.url_decode (full_key c old) ≡ full_key c old) ⊎ (is_plain (full_key c old) ≡ false))
      × ((((rename_object s3 c old new s).0 ≡ err copy_failed)
            × ((k : Text) → laws.object (rename_object s3 c old new s).1 k ≡ laws.object s k))
          ⊎ ((((rename_object s3 c old new s).0 ≡ err delete_failed)
                × (laws.object (rename_object s3 c old new s).1 (full_key c new)
                    ≡ laws.object s (laws.url_decode (full_key c old)))
                × ((k : Text)
                    → k ≢ full_key c new
                    → laws.object (rename_object s3 c old new s).1 k ≡ laws.object s k))
              ⊎ (((rename_object s3 c old new s).0 ≡ ok tt)
                  × (laws.object s (laws.url_decode (full_key c old)) ≢ none)
                  × (laws.object (rename_object s3 c old new s).1 (full_key c new)
                      ≡ laws.object s (laws.url_decode (full_key c old)))
                  × (laws.object (rename_object s3 c old new s).1 (full_key c old) ≡ none)
                  × ((k : Text)
                      → k ≢ full_key c new
                      → k ≢ full_key c old
                      → laws.object (rename_object s3 c old new s).1 k ≡ laws.object s k))))
unfolding rename_object rename_delete
rename_object_exact s3 c laws old new s ne = (
  source (Bool-cases (is_plain (full_key c old))),
  elim (Bool-cases
      (s3.copy_object (c.bucket ++ (codes "/" ++ full_key c old)) (full_key c new) s).0) [
        | inl copied ↦
            let (there, moved, rest) = laws.copy_done (full_key c old) (full_key c new) s copied in
            let s1 : s3.Service =
              (s3.copy_object (c.bucket ++ (codes "/" ++ full_key c old)) (full_key c new) s).1 in
            elim (Bool-cases (s3.delete_object (full_key c old) s1).0) [
              | inl deleted ↦
                  let (gone, others) = laws.delete_done (full_key c old) s1 deleted in
                  inr (
                    inr (
                      rw (copied, rename_object, deleted),
                      there,
                      rw (copied, rename_object)
                          (others (full_key c new) (λ e. ne (sym e)) ∙ moved),
                      rw (copied, rename_object) gone,
                      λ k n o. rw (copied, rename_object) (others k o ∙ rest k n),
                    ))
              | inr kept ↦
                  let same = laws.delete_failed (full_key c old) s1 kept in
                  inr (
                    inl (
                      rw (copied, rename_object, kept),
                      rw (copied, rename_object) (same (full_key c new) ∙ moved),
                      λ k n. rw (copied, rename_object) (same k ∙ rest k n),
                    ))
            ]
        | inr refused ↦
            let same = laws.copy_failed (full_key c old) (full_key c new) s refused in
            inl (rw (refused, rename_object), λ k. rw (refused, rename_object) (same k))
      ],
)
  where
    source :
        (is_plain (full_key c old) ≡ true) ⊎ (is_plain (full_key c old) ≡ false)
        → (laws.url_decode (full_key c old) ≡ full_key c old) ⊎ (is_plain (full_key c old) ≡ false)
    source (inl plain) = inl (laws.decode_plain (full_key c old) plain)
    source (inr other) = inr other
