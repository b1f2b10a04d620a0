-- ===== src/Sync/Manifests/Examples.antt =====
-- A file that is exported twice, at a bucket that stores and reads.
use bqcubbit.Base.{
  Text, codes, str_eq, str_eq_refl, if◌then◌else◌, Option, Bool, true, false, none, some, [], refl,
}
use bqcubbit.Storage.{S3, Client, object_exists, upload_stream}
use bqcubbit.Manifest.{TableManifest, new, add_file}
use bqcubbit.Manifest.Laws.{DistinctPaths}
use bqcubbit.Sync.Manifests.{Codec, updated_manifest, merge_manifest}
use bqcubbit.Sync.Manifests.Twice.{ReadBack, merge_manifest_twice}

abbrev Objects : Type 0
Objects = Text → Option Text

abbrev put : Text → Text → Objects → Objects
put key content s = λ k. if str_eq k key then some content else s k

abbrev exists : Option Text → Bool
exists none = false
exists (some x) = true

-- A bucket that stores and reads; it has no multipart uploads and no listing.
abbrev plain_bucket : S3
plain_bucket = record {
  Service = Objects;
  put_object = λ key content s. (true, put key content s);
  head_object = λ key s. (exists (s key), s);
  get_object = λ key s. (s key, s);
  copy_object = λ source key s. (false, s);
  delete_object = λ key s. (false, s);
  delete_objects = λ keys s. (none, s);
  list_objects = λ prefix s. [];
  create_multipart_upload = λ key s. (none, s);
  upload_part = λ key upload_id n content s. (none, s);
  complete_multipart_upload = λ key upload_id parts s. (none, s);
  abort_multipart_upload = λ key upload_id s. (false, s);
  list_multipart_uploads = λ s. [];
}

plain_bucket-ReadBack : ReadBack plain_bucket
plain_bucket-ReadBack = record {
  is_there = λ key body s e. rw (str_eq_refl key);
  reads = λ key body s e. rw (str_eq_refl key);
}

abbrev no_objects : Objects
no_objects k = none

abbrev plain_client : Client
plain_client = record { bucket = codes "b"; prefix = [] }

-- The manifest of one file.
abbrev one_file : TableManifest
one_file = add_file (codes "f") 3 0 [] (new (codes "t0"))

-- It knows the text of one manifest.
abbrev one_codec : Codec
one_codec = record { serialize = λ m. codes "{...}"; deserialize = λ content. some one_file }

merge_manifest_twice_example : ¬ (
    DistinctPaths
      (updated_manifest plain_bucket one_codec plain_client
        (codes "t1")
        (codes "d")
        (codes "t")
        (codes "f")
        3
        []
        (merge_manifest plain_bucket one_codec plain_client
          (codes "t0")
          (codes "d")
          (codes "t")
          (codes "f")
          3
          []
          no_objects).1).0.files)
unfolding object_exists new upload_stream
merge_manifest_twice_example =
    merge_manifest_twice plain_bucket one_codec plain_bucket-ReadBack plain_client (codes "t0")
      (codes "t1") (codes "d") (codes "t") (codes "f") 3 3 [] [] no_objects
      (unfold updated_manifest in refl) (unfold merge_manifest in refl)
