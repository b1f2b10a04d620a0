-- ===== src/Storage/Examples.antt =====
-- The theorems of the storage client at a bucket that is a function from keys to contents, and that
-- refuses parts out of order.
use bqcubbit.Base.{
  ◌==◌, any, ap, ℕ, Text, codes, str_eq, str_eq_refl, eq_of_str_eq, Bool, Bool-cases, inl, inr,
  true, false, ◌&&◌, Option, none, some, List, [], ◌∷◌, ◌≡◌, ◌≢◌, ◌⊎◌, refl, arith, ltb,
  if◌then◌else◌,
}
use bqcubbit.Storage.{S3, Client, StorageError, ok, err, copy_failed, delete_failed}
use bqcubbit.Storage.Rename.{is_plain, rename_object, BucketLaws, rename_object_exact}
use bqcubbit.Storage.Delete.{delete_objects}
use bqcubbit.Storage.Delete.Laws.{
  BatchLaws, Batch, is_deleted, key_count, Handled, delete_objects_exact,
}
use bqcubbit.Storage.Multipart.{eof, broken, Body, upload_multipart}
use bqcubbit.Storage.Multipart.Chunks.{Chunking}
use bqcubbit.Storage.Multipart.Parts.{
  IsAscending, OrderLaw, delivered, upload_multipart_exact, upload_multipart_large_fails,
}

abbrev Objects : Type 0
Objects = Text → Option Text

abbrev set : Text → Option Text → Objects → Objects
set key content s = λ k. if str_eq k key then content else s k

unfoldable put_copy : Text → Objects → Option Text → Bool × Objects
put_copy key s none = (false, s)
put_copy key s (some content) = (true, set key (some content) s)

-- The `+` of a URL-encoded name is a space.
unfoldable decode_plus : Text → Text
decode_plus [] = []
decode_plus (c ∷ cs) = (if c == 43 then 32 else c) ∷ decode_plus cs

decode_plus_plain : (key : Text) → is_plain key ≡ true → decode_plus key ≡ key
unfolding decode_plus
decode_plus_plain [] h = refl
decode_plus_plain (c ∷ cs) h = ground (arith, decode_plus_plain cs)

-- The copy source begins with the `/` that follows an empty bucket name.
abbrev copy_from : Text → Text → Objects → Bool × Objects
copy_from [] key s = (false, s)
copy_from (a ∷ source) key s = put_copy key s (s (decode_plus source))

-- The one key that is never deleted.
abbrev locked : List Text
locked = codes "p/b" ∷ []

set_other :
    (key k : Text) (content : Option Text) (s : Objects) → k ≢ key → set key content s k ≡ s k
set_other key k content s ne = ground (arith, eq_of_str_eq k key)

put_copy_done :
    (key : Text) (s : Objects) (o : Option Text)
    → (put_copy key s o).0 ≡ true
    → (o ≢ none)
      × ((put_copy key s o).1 key ≡ o)
      × ((k : Text) → k ≢ key → (put_copy key s o).1 k ≡ s k)
unfolding put_copy
put_copy_done key s none e = absurd (cc)
put_copy_done key s (some content) e =
    (λ n. cc, rw (str_eq_refl key), λ k ne. set_other key k (some content) s ne)

put_copy_failed :
    (key : Text) (s : Objects) (o : Option Text)
    → (put_copy key s o).0 ≡ false
    → (k : Text) → (put_copy key s o).1 k ≡ s k
unfolding put_copy
put_copy_failed key s none e k = refl
put_copy_failed key s (some content) e k = absurd (cc)

unfoldable rises : List (Text × ℕ) → Bool
rises [] = true
rises (p ∷ []) = true
rises (p ∷ q ∷ ps) = ltb p.1 q.1 && rises (q ∷ ps)

rises_sound : (ps : List (Text × ℕ)) → rises ps ≡ true → IsAscending ps
unfolding rises
rises_sound [] e = tt
rises_sound (p ∷ []) e = tt
rises_sound (p ∷ q ∷ ps) e = (ground arith, rises_sound (q ∷ ps) (ground arith))

abbrev test_bucket : S3
test_bucket = record {
  Service = Objects;
  put_object = λ key content s. (true, set key (some content) s);
  head_object = λ key s. ((elim (s key) [ none ↦ false | some x ↦ true ]), s);
  get_object = λ key s. (s key, s);
  copy_object = copy_from;
  delete_object = λ key s. (true, set key none s);
  delete_objects = λ keys s. (some locked, λ k. if is_deleted k (keys, locked) then none else s k);
  list_objects = λ prefix s. some (codes "p/a" ∷ codes "p/b" ∷ []) ∷ none ∷ [];
  create_multipart_upload = λ key s. (some (codes "u"), s);
  upload_part = λ key upload_id n content s. (some content, s);
  complete_multipart_upload =
      λ key upload_id parts s. ((if rises parts then some (codes "done") else none), s);
  abort_multipart_upload = λ key upload_id s. (true, s);
  list_multipart_uploads = λ s. [];
}

test_order : OrderLaw test_bucket
test_order = record { refused = λ key upload_id parts s h. refuse parts h }
  where
    refuse :
        (parts : List (Text × ℕ))
        → ¬ (IsAscending parts)
        → (if rises parts then some (codes "done") else none) ≡ none
    refuse parts h = elim (Bool-cases (rises parts)) [
      | inl up ↦ absurd (h (rises_sound parts up))
      | inr down ↦ rw down
    ]

test_batches : BatchLaws test_bucket
test_batches = record {
  object = λ s k. s k;
  batch_done = λ keys errors s e k. reported keys errors s k (cc);
  batch_refused = λ keys s e k. absurd (cc);
}
  where
    reported :
        (keys errors : List Text) (s : Objects) (k : Text)
        → locked ≡ errors
        → (if is_deleted k (keys, locked) then none else s k)
          ≡ (if is_deleted k (keys, errors) then none else s k)
    reported keys errors s k same =
        ap (λ (es : List Text). if is_deleted k (keys, es) then none else s k) same

test_bucket_laws : BucketLaws test_bucket []
test_bucket_laws = record {
  object = λ s k. s k;
  url_decode = decode_plus;
  decode_plain = decode_plus_plain;
  copy_done = λ source key s e. put_copy_done key s (s (decode_plus source)) e;
  copy_failed = λ source key s e k. put_copy_failed key s (s (decode_plus source)) e k;
  delete_done = λ key s e. (rw (str_eq_refl key), λ k ne. set_other key k none s ne);
  delete_failed = λ key s e k. absurd (cc);
}

abbrev client : Client
client = record { bucket = []; prefix = codes "p" }

-- One object.
abbrev one_object : Objects
one_object = set (codes "p/a") (some (codes "x")) (λ k. none)

-- Two objects, of which the key of the first stands for that of the second in a URL.
abbrev two_objects : Objects
two_objects =
    set (codes "p/a+b") (some (codes "x")) (set (codes "p/a b") (some (codes "y")) (λ k. none))

-- The object of the old key is gone, and that of another key is under the new one.
rename_run :
    ((rename_object test_bucket client (codes "a+b") (codes "c") two_objects).1 (codes "p/c")
      ≡ some (codes "y"))
    × ((rename_object test_bucket client (codes "a+b") (codes "c") two_objects).1 (codes "p/a+b")
        ≡ none)
unfolding rename_object decode_plus put_copy str_eq
rename_run = (refl, refl)

rename_object_exact_example :
    ((decode_plus (codes "p/a+b") ≡ codes "p/a+b") ⊎ (is_plain (codes "p/a+b") ≡ false))
    × ((((rename_object test_bucket client (codes "a+b") (codes "c") two_objects).0
            ≡ err copy_failed)
          × ((k : Text)
              → (rename_object test_bucket client (codes "a+b") (codes "c") two_objects).1 k
                ≡ two_objects k))
        ⊎ ((((rename_object test_bucket client (codes "a+b") (codes "c") two_objects).0
                ≡ err delete_failed)
              × ((rename_object test_bucket client (codes "a+b") (codes "c") two_objects).1
                    (codes "p/c")
                  ≡ two_objects (decode_plus (codes "p/a+b")))
              × ((k : Text)
                  → k ≢ codes "p/c"
                  → (rename_object test_bucket client (codes "a+b") (codes "c") two_objects).1 k
                    ≡ two_objects k))
            ⊎ (((rename_object test_bucket client (codes "a+b") (codes "c") two_objects).0 ≡ ok tt)
                × (two_objects (decode_plus (codes "p/a+b")) ≢ none)
                × ((rename_object test_bucket client (codes "a+b") (codes "c") two_objects).1
                      (codes "p/c")
                    ≡ two_objects (decode_plus (codes "p/a+b")))
                × ((rename_object test_bucket client (codes "a+b") (codes "c") two_objects).1
                      (codes "p/a+b")
                    ≡ none)
                × ((k : Text)
                    → k ≢ codes "p/c"
                    → k ≢ codes "p/a+b"
                    → (rename_object test_bucket client (codes "a+b") (codes "c") two_objects).1 k
                      ≡ two_objects k))))
unfolding test_bucket_laws
rename_object_exact_example =
    rename_object_exact test_bucket client test_bucket_laws (codes "a+b") (codes "c") two_objects
      (λ e. absurd (ground arith))

delete_objects_exact_example :
    (bs : List Batch) × Handled test_bucket
      (some (codes "p/a" ∷ codes "p/b" ∷ []) ∷ none ∷ [])
      one_object
      bs
      (delete_objects test_bucket client [] one_object).0.1
      (delete_objects test_bucket client [] one_object).1
    × ((delete_objects test_bucket client [] one_object).0.0 ≡ key_count bs)
    × ((k : Text)
        → (delete_objects test_bucket client [] one_object).1 k
          ≡ (if any (is_deleted k) bs then none else one_object k))
unfolding test_batches
delete_objects_exact_example = delete_objects_exact test_bucket test_batches client [] one_object

abbrev body : Body
body = record { rest = codes "abc"; ends = eof }

eof_ne_broken : body.ends ≢ broken
eof_ne_broken e = cc

upload_multipart_exact_example :
    (parts : List Text) × Chunking 2 (codes "abc") parts
    × (upload_multipart test_bucket 2 client (codes "k") body one_object
        ≡ some (delivered test_bucket 2 client (codes "k") parts (some (codes "u"), one_object)))
upload_multipart_exact_example =
    upload_multipart_exact test_bucket 2 client (codes "k") body one_object (ground arith)
      eof_ne_broken

upload_multipart_large_fails_example :
    (e : StorageError) × (s' : Objects) × (upload_multipart test_bucket 2 client
        (codes "k")
        body
        one_object
      ≡ some (err e, s'))
upload_multipart_large_fails_example =
    upload_multipart_large_fails test_bucket 2 client (codes "k") test_order body one_object
      (ground arith) eof_ne_broken (ground arith)

-- The second part breaks off.
abbrev broken_body : Body
broken_body = record body { ends = broken }
