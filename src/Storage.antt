-- ===== src/Storage.antt =====
-- internal/storage/cubbit.go: the client of the object store. The S3 SDK is a parameter: a service
-- state and the calls on it that the client makes.
pub mod Multipart
pub mod Rename
pub mod Delete
mod Examples
use bqcubbit.Base.{
  ℕ, suc, ◌+◌, ◌-◌, ◌≤◌, Text, str_eq, codes, Bool, true, false, not, ◌&&◌, ◌||◌, Option, none,
  some, List, [], ◌∷◌, ◌++◌, ltb, leb, if◌then◌else◌, length,
}

pub data StorageError : Type 0 where
  upload_failed create_failed read_failed part_failed complete_failed copy_failed delete_failed
        list_failed get_failed :
      StorageError

pub data Result {ℓ} (A : Type ℓ) : Type ℓ where
  ok : A → Result A
  err : StorageError → Result A

-- A multipart upload that was begun and not ended.
pub record PendingUpload : Type 0 where
  pub key : Text
  pub upload_id : Text
  pub initiated : Option ℕ

-- The calls of the SDK on one bucket. A call gives `none` or `false` for an error. A listing gives
-- the pages of its paginator in order, `none` for a page that fails. `copy_object` has the text of
-- CopySource, which S3 decodes, and the key; `delete_objects` gives the keys that a call without an
-- error reports as not deleted.
pub record S3 : Type 1 where
  pub Service : Type 0
  pub put_object : Text → Text → Service → Bool × Service
  pub head_object : Text → Service → Bool × Service
  pub get_object : Text → Service → Option Text × Service
  pub copy_object : Text → Text → Service → Bool × Service
  pub delete_object : Text → Service → Bool × Service
  pub delete_objects : List Text → Service → Option (List Text) × Service
  pub list_objects : Text → Service → List (Option (List Text))
  pub create_multipart_upload : Text → Service → Option Text × Service
  pub upload_part : Text → Text → ℕ → Text → Service → Option Text × Service
  pub complete_multipart_upload : Text → Text → List (Text × ℕ) → Service → Option Text × Service
  pub abort_multipart_upload : Text → Text → Service → Bool × Service
  pub list_multipart_uploads : Service → List (Option (List PendingUpload))

-- `Client`, without the SDK's client.
pub record Client : Type 0 where
  pub bucket : Text
  pub prefix : Text

-- strings.HasPrefix
unfoldable pub has_prefix : Text → Text → Bool
has_prefix s [] = true
has_prefix [] (p ∷ ps) = false
has_prefix (c ∷ s) (p ∷ ps) = str_eq (c ∷ []) (p ∷ []) && has_prefix s ps

-- strings.TrimSuffix(s, "/")
unfoldable pub trim_slash : Text → Text
trim_slash [] = []
trim_slash (c ∷ []) = if str_eq (c ∷ []) (codes "/") then [] else c ∷ []
trim_slash (c ∷ d ∷ s) = c ∷ trim_slash (d ∷ s)

-- The endpoint that `NewClient` gives to the SDK.
unfoldable pub endpoint_url : Text → Text
unfolding has_prefix
endpoint_url endpoint =
    if not (has_prefix endpoint (codes "http://")) && not (has_prefix endpoint (codes "https://"))
    then codes "https://" ++ endpoint
    else endpoint

unfoldable pub new_client : Text → Text → Client
unfolding trim_slash
new_client bucket prefix = record { bucket = bucket; prefix = trim_slash prefix }

-- c.prefix + "/" + key
abbrev pub full_key : Client → Text → Text
full_key c key = c.prefix ++ (codes "/" ++ key)

module _ (s3 : S3) where
  open s3 use {Service}

  unfoldable pub upload_stream : Client → Text → Text → Service → Result (Unit {0}) × Service
  upload_stream c key body s =
      let (done, s') = s3.put_object (full_key c key) body s in
      ((if done then ok tt else err upload_failed), s')

  -- An error of the HEAD request counts as "is not there".
  unfoldable pub object_exists : Client → Text → Service → Bool × Service
  object_exists c key s = s3.head_object (full_key c key) s

  unfoldable pub get_object : Client → Text → Service → Result Text × Service
  get_object c key s =
      let (body, s') = s3.get_object (full_key c key) s in
      ((elim body [ none ↦ err get_failed | some b ↦ ok b ]), s')

  unfoldable pub abort_multipart_upload : Client → Text → Text → Service → Bool × Service
  abort_multipart_upload c key upload_id s = s3.abort_multipart_upload (full_key c key) upload_id s
