-- ===== src/BigQuery/Exporter/Transfer.antt =====
-- What becomes of the staged objects.
use mathlib.Core.List.{Memᴰ}
use bqcubbit.Base.{
  ℕ, Text, codes, str_eq, eq_of_str_eq, ne_of_str_eq, Bool, Bool-cases, true, false, Option, none,
  some, List, [], ◌∷◌, ◌++◌, ◌≡◌, ◌≢◌, ◌⊎◌, refl, ap, subst, ◌∙◌, inl, inr, mem_left, mem_last,
}
use bqcubbit.Storage.{S3, Client, Result, ok, err, upload_stream}
use bqcubbit.BigQuery.Exporter.{
  Gcs, Backend, Exported, exported, file_name, Stores, upload_answer, upload_opened, transfer_file,
  delete_staged, transferred, transfer_named, transfer_objects, after_job, version_path, gcs_prefix,
  export_query, export_dated, export_partition, partition_id_to_date,
}

-- What Cloud Storage documents: the contents of its objects, and that a delete leaves other objects
-- alone.
pub record GcsLaws (g : Gcs) : Type 0 where
  pub content : g.State → Text → Option Text
  pub delete_others :
      (path k : Text) (s : g.State) → k ≢ path → content (g.delete path s).1 k ≡ content s k

module _ (g : Gcs) (laws : GcsLaws g) (s3 : S3) (c : Client) (prefix folder : Text) where
  -- The object is as it was, or its key is among those.
  abbrev pub KeptOrMoved : g.State → List Text → g.State → Type 0
  KeptOrMoved s keys s' =
      (p : Text)
      → (laws.content s' p ≡ laws.content s p)
        ⊎ ((name : Text) × (file_name prefix p ≡ some name)
            × Memᴰ (folder ++ (codes "/" ++ name)) keys)

  -- Where keys are returned, they are all the keys so far, and each object is kept or moved.
  abbrev pub Moves : List Text → g.State → Exported × Stores g s3 c → Type 0
  Moves keys s r =
      (ks : List Text)
      → r.0 ≡ exported ks
      → ((k : Text) → Memᴰ k keys → Memᴰ k ks) × KeptOrMoved s ks r.1.0

  upload_answer-store :
      (s : g.State) (r : Result (Unit {0}) × s3.Service) → (upload_answer g s3 c s r).1.0 ≡ s
  unfolding upload_answer
  upload_answer-store s (ok x, svc) = refl
  upload_answer-store s (err e, svc) = refl

  upload_opened-store :
      (key : Text) (content : Option Text) (w : Stores g s3 c)
      → (upload_opened g s3 c key content w).1.0 ≡ w.0
  unfolding upload_opened
  upload_opened-store key none w = refl
  upload_opened-store key (some content) (s, svc) =
      upload_answer-store s (upload_stream s3 c key content svc)

  exported_eq : {ks ls : List Text} → exported ks ≡ exported ls → ks ≡ ls
  exported_eq e = cc

  transferred-Moves :
      (rest : List Text → Stores g s3 c → Exported × Stores g s3 c)
      → ((keys : List Text) (w : Stores g s3 c) → Moves keys w.0 (rest keys w))
      → (path name : Text) (keys : List Text) (r : Bool × Stores g s3 c)
      → file_name prefix path ≡ some name
      → Moves keys r.1.0 (transferred g s3 c rest path (folder ++ (codes "/" ++ name)) keys r)
  unfolding transferred delete_staged
  transferred-Moves rest ih path name keys (false, w) e = λ ks done. ih keys w ks done
  transferred-Moves rest ih path name keys (true, (s, svc)) e = λ ks done.
      let key = folder ++ (codes "/" ++ name) in
      let (more, moved) = ih (keys ++ key ∷ []) ((g.delete path s).1, svc) ks done in
      (
        λ k m. more k (mem_left k keys (key ∷ []) m),
        λ p. elim (moved p) [
          | inr there ↦ inr there
          | inl same ↦ elim (Bool-cases (str_eq p path)) [
            | inl this ↦ inr (
              name,
              ap (file_name prefix) (eq_of_str_eq p path this) ∙ e,
              more key (mem_last key keys),
            )
            | inr other ↦ inl (same ∙ laws.delete_others path p s (ne_of_str_eq p path other))
          ]
        ],
      )

  transfer_named-Moves :
      (rest : List Text → Stores g s3 c → Exported × Stores g s3 c)
      → ((keys : List Text) (w : Stores g s3 c) → Moves keys w.0 (rest keys w))
      → (path : Text) (name : Option Text) (keys : List Text) (w : Stores g s3 c)
      → file_name prefix path ≡ name
      → Moves keys w.0 (transfer_named g s3 c rest folder path name keys w)
  unfolding transfer_named transfer_file
  transfer_named-Moves rest ih path none keys w e = λ ks done. absurd (cc)
  transfer_named-Moves rest ih path (some name) keys (s, svc) e =
      let key = folder ++ (codes "/" ++ name) in
      let r = upload_opened g s3 c key (g.open_object path s) (s, svc) in
      subst (λ (t : g.State). Moves keys t (transferred g s3 c rest path key keys r))
        (upload_opened-store key (g.open_object path s) (s, svc))
        (transferred-Moves rest ih path name keys r e)

  transfer_objects-Moves :
      (names : List (Option Text)) (keys : List Text) (w : Stores g s3 c)
      → Moves keys w.0 (transfer_objects g s3 c prefix folder names keys w)
  unfolding transfer_objects
  transfer_objects-Moves [] keys w =
      λ ks done. let same = exported_eq done in (λ k m. rw (← same) m, λ p. inl refl)
  transfer_objects-Moves (none ∷ names) keys w = λ ks done. absurd (cc)
  transfer_objects-Moves (some path ∷ names) keys w =
      transfer_named-Moves (transfer_objects g s3 c prefix folder names)
        (λ ks v. transfer_objects-Moves names ks v) path (file_name prefix path) keys w refl

module _ (g : Gcs) (laws : GcsLaws g) (s3 : S3) (c : Client) (b : Backend)
    (dataset table partition_id : Text) (version : ℕ) where
  abbrev pub staged : Text
  staged = gcs_prefix b dataset table partition_id version

  abbrev pub folder_of : Text
  folder_of = version_path dataset table partition_id version

  -- The state of Cloud Storage after the export job of a date.
  abbrev pub job_done : Text → g.State → g.State
  job_done date s = (g.run (export_query b staged dataset table date) s).1

  after_job-moved :
      (r : Bool × g.State) (svc : s3.Service) (ks : List Text)
      → (after_job g s3 c staged folder_of r svc).0 ≡ exported ks
      → KeptOrMoved g laws s3 c staged folder_of r.1 ks
          (after_job g s3 c staged folder_of r svc).1.0
  unfolding after_job
  after_job-moved (false, s) svc ks done = absurd (cc)
  after_job-moved (true, s) svc ks done =
      (transfer_objects-Moves g laws s3 c staged folder_of (g.objects staged s) [] (s, svc) ks
        done).1

  export_dated-moved :
      (d : Option Text) (s : g.State) (svc : s3.Service) (ks : List Text)
      → (export_dated g s3 c b dataset table partition_id version d (s, svc)).0 ≡ exported ks
      → (date : Text) × (d ≡ some date)
        × KeptOrMoved g laws s3 c staged folder_of
            (job_done date s)
            ks
            (export_dated g s3 c b dataset table partition_id version d (s, svc)).1.0
  unfolding export_dated
  export_dated-moved none s svc ks done = absurd (cc)
  export_dated-moved (some date) s svc ks done =
      (date, refl, after_job-moved (g.run (export_query b staged dataset table date) s) svc ks done)

  -- Where a delete in Cloud Storage leaves the other objects alone: if `ExportPartition` returns
  -- keys, then its partition id has eight bytes, and each object that is staged after the export
  -- job is either as it was, or the key that its name makes is among those that are returned.
  pub export_partition-moved :
      (s : g.State) (svc : s3.Service) (ks : List Text)
      → (export_partition g s3 c b dataset table partition_id version (s, svc)).0 ≡ exported ks
      → (date : Text) × (partition_id_to_date partition_id ≡ some date)
        × KeptOrMoved g laws s3 c staged folder_of
            (job_done date s)
            ks
            (export_partition g s3 c b dataset table partition_id version (s, svc)).1.0
  unfolding export_partition
  export_partition-moved s svc ks done =
      export_dated-moved (partition_id_to_date partition_id) s svc ks done
