-- ===== src/State/Sqlite/Versions/Laws.antt =====
-- The current schema version of a table is its highest, and versions are recorded once.
use mathlib.Core.List.{Memᴰ}
use bqcubbit.Base.{
  ℕ, ◌≤◌, ◌<◌, Bool-cases, Option-cases, true, Option, none, some, List, [], ◌∷◌, ◌++◌, ◌≡◌, ◌≢◌,
  ◌⊎◌, refl, ap, inl, inr, arith, ltb, ◌==◌, keep, keep-append, mem_keep, keep_mem, find_where,
  Distinct, append-Distinct,
}
use bqcubbit.State.{SchemaVersion, ok, err, no_rows}
use bqcubbit.State.Sqlite.{Store}
use bqcubbit.State.Sqlite.Versions.{
  same_version, record_schema_version, latest, get_current_schema_version,
}

abbrev of_table : ℕ → List SchemaVersion → List SchemaVersion
of_table table_id vs = keep (λ v. v.table_id == table_id) vs

latest_mem : (vs : List SchemaVersion) (v : SchemaVersion) → latest vs ≡ some v → Memᴰ v vs
unfolding latest
latest_mem [] v e = absurd (cc)
latest_mem (u ∷ vs) v e = elim (Option-cases (latest vs)) [
  | inl alone ↦ Memᴰ.head (ground arith)
  | inr (w, found) ↦ elim (Bool-cases (ltb u.version w.version)) [
    | inl higher ↦ Memᴰ.tail (latest_mem vs v (ground arith))
    | inr lower ↦ Memᴰ.head (ground arith)
  ]
]

latest_empty : (vs : List SchemaVersion) → latest vs ≡ none → vs ≡ []
unfolding latest
latest_empty [] e = refl
latest_empty (u ∷ vs) e = absurd (ground arith)

latest-le :
    (vs : List SchemaVersion) (v u : SchemaVersion)
    → latest vs ≡ some v
    → Memᴰ u vs
    → u.version ≤ v.version
unfolding latest
latest-le [] v u e m = elim m [ ]
latest-le (w ∷ vs) v u e (Memᴰ.head same) =
    let at : u.version ≡ w.version = ap (λ (x : SchemaVersion). x.version) same in ground arith
latest-le (w ∷ vs) v u e (Memᴰ.tail m) = elim (Option-cases (latest vs)) [
  | inl alone ↦ elim (let m' : Memᴰ u [] = rw (latest_empty vs alone) at m in m') [ ]
  | inr (x, found) ↦ let le : u.version ≤ x.version = latest-le vs x u found m in ground arith
]

-- `GetCurrentSchemaVersion` returns a version of the table that no other exceeds, or fails when the
-- table has none; it changes nothing.
pub get_current_exact :
    (table_id : ℕ) (s : Store)
    → ((v : SchemaVersion) × (get_current_schema_version table_id s ≡ (ok v, s))
        × Memᴰ v s.versions
        × (v.table_id ≡ table_id)
        × ((u : SchemaVersion) → Memᴰ u s.versions → u.table_id ≡ table_id → u.version ≤ v.version))
      ⊎ ((get_current_schema_version table_id s ≡ (err no_rows, s))
          × ((u : SchemaVersion) → Memᴰ u s.versions → u.table_id ≢ table_id))
unfolding get_current_schema_version
get_current_exact table_id s = go (latest (of_table table_id s.versions)) refl
  where
    mine :
        (u : SchemaVersion)
        → Memᴰ u s.versions
        → u.table_id ≡ table_id
        → Memᴰ u (of_table table_id s.versions)
    mine u m e = keep_mem (λ v. v.table_id == table_id) s.versions u (ground arith) m

    go :
        (o : Option SchemaVersion)
        → latest (of_table table_id s.versions) ≡ o
        → ((v : SchemaVersion) × (get_current_schema_version table_id s ≡ (ok v, s))
            × Memᴰ v s.versions
            × (v.table_id ≡ table_id)
            × ((u : SchemaVersion)
                → Memᴰ u s.versions
                → u.table_id ≡ table_id
                → u.version ≤ v.version))
          ⊎ ((get_current_schema_version table_id s ≡ (err no_rows, s))
              × ((u : SchemaVersion) → Memᴰ u s.versions → u.table_id ≢ table_id))
    go none e = inr (
      rw (e, get_current_schema_version),
      λ u m t.
          let m' : Memᴰ u [] = rw (latest_empty (of_table table_id s.versions) e) at (mine u m t) in
          elim m' [ ],
    )
    go (some v) e =
        let (own, m) = mem_keep (λ v. v.table_id == table_id) s.versions v (latest_mem _ v e) in
        inl (
          v,
          rw (e, get_current_schema_version),
          m,
          ground arith,
          λ u n t. latest-le _ v u e (mine u n t),
        )

same_version_sym : (a b : SchemaVersion) → same_version a b ≡ same_version b a
same_version_sym a b = ground arith

-- `RecordSchemaVersion` keeps UNIQUE(table_id, version): no two rows have one table and version
-- after it if none had before.
pub record_schema_version-Distinct :
    (sv : SchemaVersion) (s : Store)
    → Distinct same_version s.versions
    → Distinct same_version (record_schema_version sv s).1.versions
unfolding record_schema_version
record_schema_version-Distinct sv s d =
    elim (Option-cases (find_where (same_version sv) s.versions)) [
      | inl free ↦
          rw (free, record_schema_version)
            (append-Distinct same_version s.versions (record sv { id = s.next_version })
              (λ x. same_version_sym x (record sv { id = s.next_version })) d free)
      | inr (old, taken) ↦ rw (taken, record_schema_version) d
    ]

latest_append :
    (vs : List SchemaVersion) (v : SchemaVersion)
    → ((u : SchemaVersion) → Memᴰ u vs → u.version < v.version)
    → latest (vs ++ v ∷ []) ≡ some v
unfolding latest
latest_append [] v h = refl
latest_append (u ∷ vs) v h =
    rw (latest_append vs v (λ w m. h w (Memᴰ.tail m))) (ground (arith, h u (Memᴰ.head refl)))

-- A version that is higher than all others of its table is recorded, and is then the current one.
pub get_current_after_record :
    (sv : SchemaVersion) (s : Store)
    → ((u : SchemaVersion) → Memᴰ u s.versions → u.table_id ≡ sv.table_id → u.version < sv.version)
    → ((record_schema_version sv s).0 ≡ ok tt)
      × ((get_current_schema_version sv.table_id (record_schema_version sv s).1).0
          ≡ ok (record sv { id = s.next_version }))
unfolding record_schema_version get_current_schema_version
get_current_after_record sv s h = (
  rw (free s.versions h, record_schema_version),
  rw (free s.versions h, record_schema_version) (rw (current, get_current_schema_version)),
)
  where
    free :
        (vs : List SchemaVersion)
        → ((u : SchemaVersion) → Memᴰ u vs → u.table_id ≡ sv.table_id → u.version < sv.version)
        → find_where (same_version sv) vs ≡ none
    free [] h = refl
    free (u ∷ vs) h = elim (Bool-cases (same_version sv u)) [
      | inl same ↦
          let lt : u.version < sv.version = h u (Memᴰ.head refl) (ground arith) in
          absurd (ground arith)
      | inr other ↦ rw other (free vs (λ w m. h w (Memᴰ.tail m)))
    ]

    current :
        latest (of_table sv.table_id (s.versions ++ record sv { id = s.next_version } ∷ []))
        ≡ some (record sv { id = s.next_version })
    current =
        rw
          (keep-append (λ v. v.table_id == sv.table_id) s.versions
            (record sv { id = s.next_version } ∷ []))
          (let own : (sv.table_id == sv.table_id) ≡ true = ground arith in
            rw own (
              latest_append (of_table sv.table_id s.versions) (record sv { id = s.next_version })
                (λ u m.
                  let (t, n) = mem_keep (λ v. v.table_id == sv.table_id) s.versions u m in
                  h u n (ground arith))))
