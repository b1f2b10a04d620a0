-- ===== src/Sync/Executor/Sticks.antt =====
-- The schema version of a table never moves.
use mathlib.Core.List.{Memᴰ}
use bqcubbit.Base.{
  ℕ, Text, codes, str_eq, Bool-cases, Option, none, some, List, [], ◌∷◌, ◌≡◌, ◌≢◌, refl, ◌∙◌, inl,
  inr, All,
}
use bqcubbit.Schema.Canonical.{canonical_hash}
use bqcubbit.State.{SchemaVersion, Result, ok}
use bqcubbit.State.Sqlite.{Store}
use bqcubbit.State.Sqlite.Versions.{get_current_schema_version, record_schema_version}
use bqcubbit.State.Sqlite.Versions.Laws.{get_current_exact, get_current_after_record}
use bqcubbit.Sync.Table.Runs.{get_current-same}
use bqcubbit.Sync.Table.{initial_version}
use bqcubbit.Sync.Executor.Version.{
  SchemaCodec, bq_fields, version_after, compare_schema, after_current, recorded,
  resolve_schema_version,
}

module _ (c : SchemaCodec) (now table_id : ℕ) where
  -- One call after the other, each with the schema that it fetches.
  abbrev pub resolve_all : List (Option (List (Text × Text))) → Store → List (Result ℕ) × Store
  resolve_all [] s = ([], s)
  resolve_all (schema ∷ schemas) s =
      let (r, s') = resolve_schema_version c now table_id schema s in
      let (rs, s'') = resolve_all schemas s' in (r ∷ rs, s'')

  compare_schema_initial :
      (v : SchemaVersion) (schema : Option (List (Text × Text))) (s : Store)
      → c.unmarshal_fields (codes "{}") ≡ none
      → v.schema_json ≡ codes "{}"
      → compare_schema c now table_id v schema s ≡ (ok v.version, s)
  unfolding compare_schema version_after
  compare_schema_initial v none s no_list at = refl
  compare_schema_initial v (some fs) s no_list at =
      elim (Bool-cases (str_eq v.schema_hash (canonical_hash c.sha256_hex (bq_fields fs)))) [
        | inl same ↦ rw same refl
        | inr other ↦ rw (other, at, no_list) refl
      ]

  -- The current version of the table is the one that was recorded first.
  abbrev IsInitial : Store → Type 0
  IsInitial s =
      (v : SchemaVersion) × (get_current_schema_version table_id s ≡ (ok v, s))
      × (v.version ≡ 1)
      × (v.schema_json ≡ codes "{}")

  resolve_initial :
      (schema : Option (List (Text × Text))) (s : Store)
      → c.unmarshal_fields (codes "{}") ≡ none
      → IsInitial s
      → resolve_schema_version c now table_id schema s ≡ (ok 1, s)
  unfolding resolve_schema_version after_current
  resolve_initial schema s no_list (v, current, one, json) =
      rw (current, after_current)
        (compare_schema_initial v schema s no_list json ∙ (λ i. (ok (one i), s)))

  record-IsInitial :
      (s : Store)
      → ((u : SchemaVersion) → Memᴰ u s.versions → u.table_id ≢ table_id)
      → (s' : Store) × (record_schema_version (initial_version now table_id) s ≡ (ok tt, s'))
        × IsInitial s'
  record-IsInitial s none_there =
      let (done, current) =
        get_current_after_record (initial_version now table_id) s
          (λ u m e. absurd (none_there u m e)) in
      let s' : Store = (record_schema_version (initial_version now table_id) s).1 in
      (
        s',
        (λ i. (done i, s')),
        (
          record (initial_version now table_id) { id = s.next_version },
          (λ i. (current i, get_current-same table_id s' i)),
          refl,
          refl,
        ),
      )

  resolve_first :
      (schema : Option (List (Text × Text))) (s s' : Store)
      → ((u : SchemaVersion) → Memᴰ u s.versions → u.table_id ≢ table_id)
      → record_schema_version (initial_version now table_id) s ≡ (ok tt, s')
      → resolve_schema_version c now table_id schema s ≡ (ok 1, s')
  unfolding resolve_schema_version after_current recorded
  resolve_first schema s s' none_there done = elim (get_current_exact table_id s) [
    | inl (v, e, m, own, most) ↦ absurd (none_there v m own)
    | inr (e, others) ↦ rw (e, after_current) (rw (done, recorded) refl)
  ]

  resolve_all_initial :
      (schemas : List (Option (List (Text × Text)))) (s : Store)
      → c.unmarshal_fields (codes "{}") ≡ none
      → IsInitial s
      → All (λ r. r ≡ ok 1) (resolve_all schemas s).0
  resolve_all_initial [] s no_list first = tt
  resolve_all_initial (schema ∷ schemas) s no_list first =
      rw (resolve_initial schema s no_list first)
        (refl, resolve_all_initial schemas s no_list first)

  -- Where encoding/json refuses to read an object into a list, as it documents: for a table that
  -- has no version yet, every call of `resolveSchemaVersion`, one after the other, answers 1,
  -- whatever the schemas of the source are in between. The version that is recorded first has `{}`
  -- for its schema, which is never read as fields, so no change of a schema is ever recorded.
  pub schema_version_sticks :
      (schemas : List (Option (List (Text × Text)))) (s : Store)
      → c.unmarshal_fields (codes "{}") ≡ none
      → ((u : SchemaVersion) → Memᴰ u s.versions → u.table_id ≢ table_id)
      → All (λ r. r ≡ ok 1) (resolve_all schemas s).0
  schema_version_sticks [] s no_list none_there = tt
  schema_version_sticks (schema ∷ schemas) s no_list none_there =
      let (s', done, first) = record-IsInitial s none_there in
      rw (resolve_first schema s s' none_there done)
        (refl, resolve_all_initial schemas s' no_list first)
