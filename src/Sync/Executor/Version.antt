-- ===== src/Sync/Executor/Version.antt =====
-- internal/sync/executor.go, `resolveSchemaVersion`. The fields of an Arrow schema, and what
-- encoding/json makes of fields and changes, are arguments.
use bqcubbit.Base.{ℕ, ◌+◌, Text, codes, str_eq, Option, none, some, List, [], ◌∷◌, if◌then◌else◌}
use bqcubbit.Schema.{Fields, nil, cons}
use bqcubbit.Schema.Canonical.{canonical_hash}
use bqcubbit.Schema.Diff.{FieldChange}
use bqcubbit.Schema.Classify.{change_type_string}
use bqcubbit.Schema.Evolution.{diff}
use bqcubbit.State.{SchemaVersion, Result, ok, err}
use bqcubbit.State.Sqlite.{Store}
use bqcubbit.State.Sqlite.Versions.{get_current_schema_version, record_schema_version}
use bqcubbit.Sync.Table.{initial_version}

-- The calls of encoding/json, and SHA-256 in hexadecimal.
pub record SchemaCodec : Type 0 where
  pub sha256_hex : Text → Text
  pub marshal_fields : Fields → Option Text
  pub unmarshal_fields : Text → Option Fields
  pub marshal_changes : List FieldChange → Option Text

-- The loop over the fields of the Arrow schema, given by their names and types.
unfoldable pub bq_fields : List (Text × Text) → Fields
bq_fields [] = nil
bq_fields ((name, type) ∷ fs) =
    cons (record { name = name; type = type; mode = codes "NULLABLE"; description = [] }) nil
      (bq_fields fs)

-- `mustMarshal`
unfoldable pub must_marshal : Option Text → Text
must_marshal none = codes "{}"
must_marshal (some t) = t

-- `changesJSON, _ := json.Marshal(…)`
unfoldable pub or_empty : Option Text → Text
or_empty none = []
or_empty (some t) = t

module _ (c : SchemaCodec) (now table_id : ℕ) where
  -- The row of the version after `v`.
  unfoldable pub next_version : SchemaVersion → Text → Fields → Fields → SchemaVersion
  unfolding must_marshal or_empty
  next_version v new_hash old_fields fields =
      let d = diff c.sha256_hex old_fields fields in
      record {
        id = 0;
        table_id = table_id;
        version = v.version + 1;
        schema_hash = new_hash;
        schema_json = must_marshal (c.marshal_fields fields);
        change_type = change_type_string d.change_type;
        changes_json = or_empty (c.marshal_changes d.changes);
        valid_from = now;
      }

  -- The result of the write of that row; `n` is its number.
  unfoldable pub recorded : ℕ → Result (Unit {0}) × Store → Result ℕ × Store
  recorded n (err e, s) = (err e, s)
  recorded n (ok x, s) = (ok n, s)

  -- If the old fields can be read.
  unfoldable pub version_after :
      SchemaVersion → Text → Fields → Option Fields → Store → Result ℕ × Store
  unfolding next_version recorded
  version_after v new_hash fields none s = (ok v.version, s)
  version_after v new_hash fields (some old_fields) s =
      recorded (v.version + 1) (record_schema_version (next_version v new_hash old_fields fields) s)

  -- If the schema can be fetched.
  unfoldable pub compare_schema :
      SchemaVersion → Option (List (Text × Text)) → Store → Result ℕ × Store
  unfolding version_after bq_fields
  compare_schema v none s = (ok v.version, s)
  compare_schema v (some fs) s =
      let new_hash = canonical_hash c.sha256_hex (bq_fields fs) in
      if str_eq v.schema_hash new_hash
      then (ok v.version, s)
      else version_after v new_hash (bq_fields fs) (c.unmarshal_fields v.schema_json) s

  unfoldable pub after_current :
      Option (List (Text × Text)) → Result SchemaVersion × Store → Result ℕ × Store
  unfolding compare_schema recorded
  after_current schema (err e, s) =
      recorded 1 (record_schema_version (initial_version now table_id) s)
  after_current schema (ok v, s) = compare_schema v schema s

  unfoldable pub resolve_schema_version : Option (List (Text × Text)) → Store → Result ℕ × Store
  unfolding after_current
  resolve_schema_version schema s = after_current schema (get_current_schema_version table_id s)
