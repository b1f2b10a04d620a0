-- ===== src/State/Sqlite/Tables/Partitions.antt =====
-- What a look-up and a write of a partition leave alone.
use bqcubbit.Base.{
  ℕ, Text, Bool, Bool-cases, Option-cases, true, false, Option, none, some, List, [], ◌∷◌, ◌++◌,
  ◌≡◌, ◌⊎◌, refl, ap, ◌∙◌, inl, inr, ◌==◌, find_where, find_where-update, find_where-append_some,
  if◌then◌else◌,
}
use bqcubbit.State.{PartitionState, Result, ok}
use bqcubbit.State.Sqlite.{Store}
use bqcubbit.State.Sqlite.Tables.{
  is_partition, new_partition, get_or_create_partition, update_partition_sync,
}
use bqcubbit.State.Sqlite.Tables.Laws.{partition_found}

-- The row of a partition.
abbrev pub partition_row : ℕ → Text → Store → Option PartitionState
partition_row table_id partition_id s = find_where (is_partition table_id partition_id) s.partitions

abbrev pub row_path : Option PartitionState → Text
row_path none = []
row_path (some p) = p.last_exported_path

-- `last_exported_path`, empty where there is no row.
abbrev pub path_of : ℕ → Text → Store → Text
path_of table_id partition_id s = row_path (partition_row table_id partition_id s)

-- A store without the rows of its partitions.
abbrev pub outside : Store → Store
outside s = record s { partitions = []; next_partition = 0 }

-- All but the partitions is the same, and so are the paths of all partitions.
abbrev pub SamePaths : Store → Store → Type 0
SamePaths s t =
    (outside t ≡ outside s)
    × ((table_id : ℕ) (id : Text) → path_of table_id id t ≡ path_of table_id id s)

pub SamePaths-refl : (s : Store) → SamePaths s s
SamePaths-refl s = (refl, λ table_id id. refl)

pub SamePaths-trans : (s t u : Store) → SamePaths s t → SamePaths t u → SamePaths s u
SamePaths-trans s t u h k = (k.0 ∙ h.0, λ table_id id. k.1 table_id id ∙ h.1 table_id id)

find_where-append_row {ℓ} :
    {A : Type ℓ} (q : A → Bool) (xs : List A) (x : A)
    → find_where q (xs ++ x ∷ [])
      ≡ (elim (find_where q xs) [ some y ↦ some y | none ↦ if q x then some x else none ])
find_where-append_row q [] x = refl
find_where-append_row q (y ∷ xs) x = elim (Bool-cases (q y)) [
  | inl this ↦ rw this refl
  | inr other ↦ rw other (find_where-append_row q xs x)
]

module _ (now table_id : ℕ) (partition_id : Text) where
  row_path-append :
      (q : PartitionState → Bool) (rows : List PartitionState) (x : PartitionState)
      → x.last_exported_path ≡ []
      → row_path (find_where q (rows ++ x ∷ [])) ≡ row_path (find_where q rows)
  row_path-append q rows x empty =
      ap row_path (find_where-append_row q rows x) ∙ by_row (find_where q rows) (q x)
    where
      by_row :
          (o : Option PartitionState) (b : Bool)
          → row_path (elim o [ some y ↦ some y | none ↦ if b then some x else none ]) ≡ row_path o
      by_row (some y) b = refl
      by_row none true = empty
      by_row none false = refl

  -- A look-up always finds or makes the row, and changes no path.
  pub get_or_create_partition-some :
      (s : Store)
      → (p : PartitionState) × (s' : Store) × (get_or_create_partition now table_id partition_id s
          ≡ (ok p, s'))
        × (partition_row table_id partition_id s' ≡ some p)
        × SamePaths s s'
  unfolding get_or_create_partition
  get_or_create_partition-some s = elim (Option-cases (partition_row table_id partition_id s)) [
    | inl missing ↦
        let p : PartitionState = new_partition now s.next_partition table_id partition_id in
        let s' : Store = (get_or_create_partition now table_id partition_id s).1 in
        let made : get_or_create_partition now table_id partition_id s ≡ (ok p, s') =
          rw (missing, get_or_create_partition) refl in
        (
          p,
          s',
          made,
          partition_found table_id partition_id now s p
              (ap (λ (r : Result PartitionState × Store). r.0) made),
          (
            rw (missing, get_or_create_partition) refl,
            λ t id.
                rw (missing, get_or_create_partition)
                  (row_path-append (is_partition t id) s.partitions p refl),
          ),
        )
    | inr (p, found) ↦ (p, s, rw (found, get_or_create_partition) refl, found, SamePaths-refl s)
  ]

-- A write of a partition reads no key, so each row stays, or takes what is written.
pub update_partition_row :
    (ps : PartitionState) (table_id : ℕ) (partition_id : Text) (s : Store) (r : PartitionState)
    → partition_row table_id partition_id s ≡ some r
    → (r' : PartitionState) × (partition_row table_id partition_id (update_partition_sync ps s).1
        ≡ some r')
      × ((r' ≡ r)
          ⊎ ((r'.schema_version ≡ ps.schema_version)
              × (r'.last_successful_sync ≡ ps.last_successful_sync)
              × (r'.bytes_in_cubbit ≡ ps.bytes_in_cubbit)
              × (r'.last_exported_path ≡ ps.last_exported_path)))
unfolding update_partition_sync
update_partition_row ps table_id partition_id s r e =
    let at : partition_row table_id partition_id (update_partition_sync ps s).1
        ≡ some (
            if r.id == ps.id
            then record r {
              schema_version = ps.schema_version;
              bq_last_modified = ps.bq_last_modified;
              last_successful_sync = ps.last_successful_sync;
              row_count = ps.row_count;
              bytes_in_cubbit = ps.bytes_in_cubbit;
              last_exported_path = ps.last_exported_path;
            }
            else r) =
      find_where-update (is_partition table_id partition_id) (λ q. q.id == ps.id) _ s.partitions
        (λ q. refl)
      ∙ rw e refl in
    elim (Bool-cases (r.id == ps.id)) [
      | inl hit ↦ (
        record r {
          schema_version = ps.schema_version;
          bq_last_modified = ps.bq_last_modified;
          last_successful_sync = ps.last_successful_sync;
          row_count = ps.row_count;
          bytes_in_cubbit = ps.bytes_in_cubbit;
          last_exported_path = ps.last_exported_path;
        },
        at ∙ rw hit refl,
        inr (refl, refl, refl, refl),
      )
      | inr miss ↦ (r, at ∙ rw miss refl, inl refl)
    ]

-- A look-up leaves the rows that are there alone.
pub get_or_create_partition_row :
    (now table_id : ℕ) (partition_id : Text) (t : ℕ) (id : Text) (s : Store) (r : PartitionState)
    → partition_row t id s ≡ some r
    → partition_row t id (get_or_create_partition now table_id partition_id s).1 ≡ some r
unfolding get_or_create_partition
get_or_create_partition_row now table_id partition_id t id s r e =
    elim (Option-cases (partition_row table_id partition_id s)) [
      | inl missing ↦
          rw (missing, get_or_create_partition)
            (find_where-append_some (is_partition t id) s.partitions
              (new_partition now s.next_partition table_id partition_id ∷ []) r e)
      | inr (p, found) ↦ rw (found, get_or_create_partition) e
    ]
