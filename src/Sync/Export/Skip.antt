-- ===== src/Sync/Export/Skip.antt =====
-- What `exportBatch` does to the database on each of its ways out.
use bqcubbit.Base.{
  ℕ, Text, Bool, true, false, &&-true, Option, none, List, [], ◌∷◌, ◌≡◌, ◌≢◌, ◌⊎◌, refl, sym, ap,
  subst, ◌∙◌, inl, inr, All, All-map, length, ◌%◌,
}
use bqcubbit.State.{TableState}
use bqcubbit.State.Sqlite.{Store}
use bqcubbit.State.Sqlite.Tables.Partitions.{
  row_path, path_of, outside, SamePaths, SamePaths-refl, SamePaths-trans,
  get_or_create_partition-some,
}
use bqcubbit.Parquet.{WriteResult, WriteOutcome, written, broken, write_stream_result}
use bqcubbit.Hash.{int64_values}
use bqcubbit.Storage.{Result, ok, err}
use bqcubbit.Storage.Multipart.{Body}
use bqcubbit.Storage.Rename.{rename_object}
use bqcubbit.Sync.{PartitionInfo}
use bqcubbit.Sync.Keys.{Now, batch_final_key, batch_staging_key}
use bqcubbit.Sync.Orchestrator.{
  Orchestrator, World, piped, bytes_uploaded, bytes_uploaded-piped, upload_body,
}
use bqcubbit.Sync.Export.{
  ExportError, last_id, path_exists, exported_row, is_exported, all_exported, after_rename,
  after_upload, after_check, export_batch,
}
use bqcubbit.Sync.Export.Rows.{Marked, write_rows-Marked, write_rows-outside}

module _ (o : Orchestrator) (now : Now) where
  pub path_exists-store :
      (path : Text) (w : World o)
      → ((path_exists o now path w).1.1 ≡ w.1) × ((path_exists o now path w).0 ≡ true → path ≢ [])
  unfolding path_exists
  path_exists-store [] (svc, s) = (refl, λ h. absurd (cc))
  path_exists-store (c ∷ cs) (svc, s) = (refl, λ h e. absurd (cc))

  is_exported-store :
      (table_id : ℕ) (p : PartitionInfo) (w : World o)
      → SamePaths w.1 (is_exported o now table_id p w).1.1
        × ((is_exported o now table_id p w).0 ≡ true → path_of table_id p.partition_id w.1 ≢ [])
  unfolding is_exported exported_row
  is_exported-store table_id p (svc, s) =
      let (r, s', found, row, same) =
        get_or_create_partition-some now.seconds table_id p.partition_id s in
      let (kept, path) = path_exists-store r.last_exported_path (svc, s') in
      let at : path_of table_id p.partition_id s ≡ r.last_exported_path =
        sym (same.1 table_id p.partition_id) ∙ ap row_path row in
      rw found (subst (λ (t : Store). SamePaths s t) (sym kept) same, λ h e. path h (sym at ∙ e))

  all_exported-store :
      (table_id : ℕ) (ps : List PartitionInfo) (w : World o)
      → SamePaths w.1 (all_exported o now table_id ps w).1.1
        × ((all_exported o now table_id ps w).0 ≡ true
            → All (λ p. path_of table_id p.partition_id w.1 ≢ []) ps)
  unfolding all_exported
  all_exported-store table_id [] w = (SamePaths-refl w.1, λ h. tt)
  all_exported-store table_id (p ∷ ps) w =
      let (first, path) = is_exported-store table_id p w in
      let w' : World o = (is_exported o now table_id p w).1 in
      let (rest, paths) = all_exported-store table_id ps w' in
      (
        SamePaths-trans w.1 w'.1 (all_exported o now table_id ps w').1.1 first rest,
        λ h.
            let (this, others) =
              (&&-true (is_exported o now table_id p w).0 (all_exported o now table_id ps w').0).0
                h in
            (
              path this,
              All-map (λ (q : PartitionInfo). path_of table_id q.partition_id w'.1 ≢ []) ps
                  (λ q n e. n (first.1 table_id q.partition_id ∙ e)) (paths others),
            ),
      )

  module _ (version : ℕ) (t : TableState) (p : PartitionInfo) (ps : List PartitionInfo) where
    -- Nil, with the rows of all partitions written.
    abbrev pub Exported : ℕ → Text → Store → Option ExportError × World o → Type 0
    Exported bytes path s r =
        (r.0 ≡ none)
        × (outside r.1.1 ≡ outside s)
        × All (λ q. Marked now version bytes path t.id q.partition_id r.1.1) (p ∷ ps)

    -- An error, with no path changed.
    abbrev pub Failed : Store → Option ExportError × World o → Type 0
    Failed s r = (r.0 ≢ none) × SamePaths s r.1.1

    -- Nil, with nothing written, since every partition has a path already.
    abbrev pub Skipped : Store → Option ExportError × World o → Type 0
    Skipped s r =
        (r.0 ≡ none) × SamePaths s r.1.1 × All (λ q. path_of t.id q.partition_id s ≢ []) (p ∷ ps)

    after_rename-ways :
        (path : Text) (b : Body) (r : Result (Unit {0}) × o.s3.Service) (s : Store)
        → Exported (bytes_uploaded o b) path s (after_rename o now version t (p ∷ ps) path b r s)
          ⊎ Failed s (after_rename o now version t (p ∷ ps) path b r s)
    unfolding after_rename
    after_rename-ways path b (err e, svc) s = inr ((λ h. absurd (cc)), SamePaths-refl s)
    after_rename-ways path b (ok x, svc) s = inl (
      refl,
      write_rows-outside o now version (bytes_uploaded o b) path t.id (p ∷ ps) s,
      write_rows-Marked o now version (bytes_uploaded o b) path t.id (p ∷ ps) s,
    )

    after_upload-ways :
        (staging path : Text) (out : WriteOutcome WriteResult × Text)
        (r : Result Text × o.s3.Service) (s : Store)
        → ((w : WriteResult) × (out.0 ≡ written w)
            × Exported
                (bytes_uploaded o (piped out))
                path
                s
                (after_upload o now version t (p ∷ ps) staging path out r s))
          ⊎ Failed s (after_upload o now version t (p ∷ ps) staging path out r s)
    unfolding after_upload
    after_upload-ways staging path out (err e, svc) s = inr ((λ h. absurd (cc)), SamePaths-refl s)
    after_upload-ways staging path (broken e, content) (ok tag, svc) s =
        inr ((λ h. absurd (cc)), SamePaths-refl s)
    after_upload-ways staging path (written w, content) (ok tag, svc) s =
        elim (after_rename-ways path (piped (written w, content))
          (rename_object o.s3 o.client staging path svc) s) [
            | inl done ↦ inl (w, refl, done)
            | inr failed ↦ inr failed
          ]

    -- The key of the object that holds the batch.
    abbrev pub batch_path : Text
    batch_path = batch_final_key t.dataset t.table_name version p.partition_id (last_id p ps)

    Exported_from :
        {n n' : ℕ}
        → n ≡ n'
        → (path : Text) (s s' : Store) (r : Option ExportError × World o) → outside s' ≡ outside s
        → Exported n path s' r
        → Exported n' path s r
    Exported_from e path s s' r same (done, tables, rows) = (
      done,
      tables ∙ same,
      subst (λ (k : ℕ). All (λ q. Marked now version k path t.id q.partition_id r.1.1) (p ∷ ps)) e
          rows,
    )

    after_check-ways :
        (schema : o.arrow.Schema) (batches : List o.arrow.Batch) (s : Store) (r : Bool × World o)
        → SamePaths s r.1.1 × (r.0 ≡ true → All (λ q. path_of t.id q.partition_id s ≢ []) (p ∷ ps))
        → Skipped s (after_check o now version t p ps schema batches r)
          ⊎ (((w : WriteResult) × ((write_stream_result o.arrow schema batches).0 ≡ written w)
                × Exported
                    (length (write_stream_result o.arrow schema batches).1 % int64_values)
                    batch_path
                    s
                    (after_check o now version t p ps schema batches r))
              ⊎ Failed s (after_check o now version t p ps schema batches r))
    unfolding after_check
    after_check-ways schema batches s (true, w) (same, paths) = inl (refl, same, paths refl)
    after_check-ways schema batches s (false, (svc', s')) (same, paths) =
        let out = write_stream_result o.arrow schema batches in
        let staging = batch_staging_key now t.table_name p.partition_id in
        let uploaded = upload_body o staging (piped out) svc' in
        let r = after_upload o now version t (p ∷ ps) staging batch_path out uploaded s' in
        elim (after_upload-ways staging batch_path out uploaded s') [
          | inl (w, e, done) ↦
              inr (
                inl
                  (w, e, Exported_from (bytes_uploaded-piped o out) batch_path s s' r same.0 done))
          | inr (failed, kept) ↦ inr (inr (failed, SamePaths-trans s s' r.1.1 same kept))
        ]

    -- `exportBatch` of some partitions has three ways out. It returns nil because every partition
    -- has the path of an export already, and changes no path. Or it returns nil, the Parquet writer
    -- has succeeded, and the row of each partition of the batch has the version, the time, the key
    -- of the object, and as its bytes the number of bytes that the writer wrote, modulo 2^64. Or it
    -- returns an error, and the path of no partition has changed: a failed export marks nothing as
    -- exported. All but the partitions stays the same on every way.
    pub export_batch_exact :
        (schema : o.arrow.Schema) (batches : List o.arrow.Batch) (svc : o.s3.Service) (s : Store)
        → Skipped s (export_batch o now version t (p ∷ ps) schema batches (svc, s))
          ⊎ (((w : WriteResult) × ((write_stream_result o.arrow schema batches).0 ≡ written w)
                × Exported
                    (length (write_stream_result o.arrow schema batches).1 % int64_values)
                    batch_path
                    s
                    (export_batch o now version t (p ∷ ps) schema batches (svc, s)))
              ⊎ Failed s (export_batch o now version t (p ∷ ps) schema batches (svc, s)))
    unfolding export_batch
    export_batch_exact schema batches svc s =
        after_check-ways schema batches s (all_exported o now t.id (p ∷ ps) (svc, s))
          (all_exported-store t.id (p ∷ ps) (svc, s))

  -- An export leaves all but the partitions alone.
  pub export_batch-outside :
      (version : ℕ) (t : TableState) (batch : List PartitionInfo) (schema : o.arrow.Schema)
      (batches : List o.arrow.Batch) (w : World o)
      → outside (export_batch o now version t batch schema batches w).1.1 ≡ outside w.1
  unfolding export_batch
  export_batch-outside version t [] schema batches w = refl
  export_batch-outside version t (p ∷ ps) schema batches (svc, s) =
      elim (export_batch_exact version t p ps schema batches svc s) [
        | inl (done, same, paths) ↦ same.0
        | inr (inl (w, e, (done, tables, rows))) ↦ tables
        | inr (inr (failed, same)) ↦ same.0
      ]
