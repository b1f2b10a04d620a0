-- ===== src/Sync/Executor/Partitions.antt =====
-- `resolveSchemaVersion` leaves the rows of the partitions alone.
use bqcubbit.Base.{
  ℕ, ◌+◌, Text, str_eq, Bool-cases, Option, Option-cases, none, some, List, ◌≡◌, refl, ap, ◌∙◌, inl,
  inr, find_where,
}
use bqcubbit.Schema.{Fields}
use bqcubbit.Schema.Canonical.{canonical_hash}
use bqcubbit.State.{SchemaVersion, Result, ok, err}
use bqcubbit.State.Sqlite.{Store}
use bqcubbit.State.Sqlite.Versions.{same_version, record_schema_version, get_current_schema_version}
use bqcubbit.Sync.Table.{initial_version}
use bqcubbit.Sync.Table.Runs.{get_current-same}
use bqcubbit.Sync.Executor.Version.{
  SchemaCodec, bq_fields, next_version, recorded, version_after, compare_schema, after_current,
  resolve_schema_version,
}

-- The partitions are the same.
record_schema_version-partitions :
    (sv : SchemaVersion) (s : Store) → (record_schema_version sv s).1.partitions ≡ s.partitions
unfolding record_schema_version
record_schema_version-partitions sv s =
    elim (Option-cases (find_where (same_version sv) s.versions)) [
      | inl free ↦ rw (free, record_schema_version) refl
      | inr (v, taken) ↦ rw (taken, record_schema_version) refl
    ]

module _ (c : SchemaCodec) (now table_id : ℕ) where
  recorded-partitions :
      (n : ℕ) (r : Result (Unit {0}) × Store)
      → (recorded c now table_id n r).1.partitions ≡ r.1.partitions
  unfolding recorded
  recorded-partitions n (err e, s) = refl
  recorded-partitions n (ok x, s) = refl

  compare_schema-partitions :
      (v : SchemaVersion) (schema : Option (List (Text × Text))) (s : Store)
      → (compare_schema c now table_id v schema s).1.partitions ≡ s.partitions
  unfolding compare_schema version_after
  compare_schema-partitions v none s = refl
  compare_schema-partitions v (some fs) s =
      let hash = canonical_hash c.sha256_hex (bq_fields fs) in
      elim (Bool-cases (str_eq v.schema_hash hash)) [
        | inl same ↦ rw same refl
        | inr other ↦ rw other (by_fields (c.unmarshal_fields v.schema_json))
      ]
    where
      by_fields :
          (old : Option Fields)
          → (version_after c now table_id v
              (canonical_hash c.sha256_hex (bq_fields fs))
              (bq_fields fs)
              old
              s).1.partitions
            ≡ s.partitions
      by_fields none = refl
      by_fields (some old) =
          let sv =
            next_version c now table_id v (canonical_hash c.sha256_hex (bq_fields fs)) old
              (bq_fields fs) in
          recorded-partitions (v.version + 1) (record_schema_version sv s)
          ∙ record_schema_version-partitions sv s

  after_current-partitions :
      (schema : Option (List (Text × Text))) (r : Result SchemaVersion × Store)
      → (after_current c now table_id schema r).1.partitions ≡ r.1.partitions
  unfolding after_current
  after_current-partitions schema (err e, s) =
      recorded-partitions 1 (record_schema_version (initial_version now table_id) s)
      ∙ record_schema_version-partitions (initial_version now table_id) s
  after_current-partitions schema (ok v, s) = compare_schema-partitions v schema s

  pub resolve_schema_version-partitions :
      (schema : Option (List (Text × Text))) (s : Store)
      → (resolve_schema_version c now table_id schema s).1.partitions ≡ s.partitions
  unfolding resolve_schema_version
  resolve_schema_version-partitions schema s =
      after_current-partitions schema (get_current_schema_version table_id s)
      ∙ ap (λ (t : Store). t.partitions) (get_current-same table_id s)
