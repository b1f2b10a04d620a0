-- ===== src/State/Sqlite/Versions.antt =====
-- internal/state/sqlite.go: `RecordSchemaVersion`, `GetCurrentSchemaVersion`.
pub mod Laws
use bqcubbit.Base.{
  ℕ, suc, Bool, ◌&&◌, Option, none, some, List, [], ◌∷◌, ◌++◌, ltb, ◌==◌, if◌then◌else◌, find_where,
  keep,
}
use bqcubbit.State.{SchemaVersion, Result, ok, err, no_rows, unique_violation, Action}
use bqcubbit.State.Sqlite.{Store}

-- The columns of UNIQUE(table_id, version).
abbrev pub same_version : SchemaVersion → SchemaVersion → Bool
same_version a b = (a.table_id == b.table_id) && (a.version == b.version)

-- The id of the argument is not read: the row gets the next one.
unfoldable pub record_schema_version : SchemaVersion → Action Store (Unit {0})
record_schema_version sv s = elim (find_where (same_version sv) s.versions) [
  | some old ↦ (err unique_violation, s)
  | none ↦ (
    ok tt,
    record s {
      versions = s.versions ++ record sv { id = s.next_version } ∷ [];
      next_version = suc s.next_version;
    },
  )
]

-- ORDER BY version DESC LIMIT 1
unfoldable pub latest : List SchemaVersion → Option SchemaVersion
latest [] = none
latest (v ∷ vs) = elim (latest vs) [
  | none ↦ some v
  | some w ↦ some (if ltb v.version w.version then w else v)
]

unfoldable pub get_current_schema_version : ℕ → Action Store SchemaVersion
unfolding latest
get_current_schema_version table_id s =
    elim (latest (keep (λ v. v.table_id == table_id) s.versions)) [
      | some v ↦ (ok v, s)
      | none ↦ (err no_rows, s)
    ]
