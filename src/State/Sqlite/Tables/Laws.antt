-- ===== src/State/Sqlite/Tables/Laws.antt =====
-- Tables and partitions: one row for each name, and what is written is read back.
use bqcubbit.Base.{
  ℕ, Text, str_eq, str_eq_refl, eq_of_str_eq, Option-cases, true, some, ◌≡◌, refl, ap, ◌∙◌, inl,
  inr, arith, ◌==◌, find_where, find_where_sound, find_where-append, find_where-update,
}
use bqcubbit.State.{TableState, PartitionState, Result, ok, err, no_such_column}
use bqcubbit.State.Sqlite.{Store}
use bqcubbit.State.Sqlite.Tables.{
  is_table, new_table, get_or_create_table, acknowledge_schema_change, is_partition, new_partition,
  get_or_create_partition, update_partition_sync,
}

ok_eq {ℓ} : {A : Type ℓ} {a b : A} → ◌≡◌ {A = Result A} (ok a) (ok b) → a ≡ b
ok_eq e = cc

module _ (project dataset table_name : Text) where
  is_table_self :
      (id : ℕ)
      → is_table project dataset table_name (new_table id project dataset table_name) ≡ true
  is_table_self id = rw (str_eq_refl project, str_eq_refl dataset, str_eq_refl table_name)

  table_found :
      (s : Store) (t : TableState)
      → (get_or_create_table project dataset table_name s).0 ≡ ok t
      → find_where
          (is_table project dataset table_name)
          (get_or_create_table project dataset table_name s).1.tables
        ≡ some t
  unfolding get_or_create_table
  table_found s t e =
      elim (Option-cases (find_where (is_table project dataset table_name) s.tables)) [
        | inl missing ↦
            let same : new_table s.next_table project dataset table_name ≡ t =
              ok_eq (rw (missing, get_or_create_table) at e) in
            rw (missing, get_or_create_table)
              (find_where-append (is_table project dataset table_name) s.tables
                  (new_table s.next_table project dataset table_name) missing
                  (is_table_self s.next_table)
                ∙ ap some same)
        | inr (u, found) ↦
            let same : u ≡ t = ok_eq (rw (found, get_or_create_table) at e) in
            rw (found, get_or_create_table) (found ∙ ap some same)
      ]

  known_table :
      (s : Store) (t : TableState)
      → find_where (is_table project dataset table_name) s.tables ≡ some t
      → get_or_create_table project dataset table_name s ≡ (ok t, s)
  unfolding get_or_create_table
  known_table s t e = rw (e, get_or_create_table)

  table_names :
      (t : TableState)
      → is_table project dataset table_name t ≡ true
      → (t.project ≡ project) × (t.dataset ≡ dataset) × (t.table_name ≡ table_name)
  table_names t h = ground (
    arith,
    eq_of_str_eq t.project project,
    eq_of_str_eq t.dataset dataset,
    eq_of_str_eq t.table_name table_name,
  )

  -- `GetOrCreateTable` returns a table of the three names; asked again it returns the same table
  -- and changes nothing.
  pub get_or_create_table_twice :
      (s : Store) (t : TableState)
      → (get_or_create_table project dataset table_name s).0 ≡ ok t
      → ((t.project ≡ project) × (t.dataset ≡ dataset) × (t.table_name ≡ table_name))
        × (get_or_create_table project dataset table_name
              (get_or_create_table project dataset table_name s).1
            ≡ (ok t, (get_or_create_table project dataset table_name s).1))
  get_or_create_table_twice s t e = (
    table_names t (
        find_where_sound (is_table project dataset table_name)
          (get_or_create_table project dataset table_name s).1.tables (table_found s t e)),
    known_table (get_or_create_table project dataset table_name s).1 t (table_found s t e),
  )

module _ (table_id : ℕ) (partition_id : Text) where
  is_partition_self :
      (now id : ℕ)
      → is_partition table_id partition_id (new_partition now id table_id partition_id) ≡ true
  is_partition_self now id = rw (str_eq_refl partition_id) (ground arith)

  pub partition_found :
      (now : ℕ) (s : Store) (p : PartitionState)
      → (get_or_create_partition now table_id partition_id s).0 ≡ ok p
      → find_where
          (is_partition table_id partition_id)
          (get_or_create_partition now table_id partition_id s).1.partitions
        ≡ some p
  unfolding get_or_create_partition
  partition_found now s p e =
      elim (Option-cases (find_where (is_partition table_id partition_id) s.partitions)) [
        | inl missing ↦
            let same : new_partition now s.next_partition table_id partition_id ≡ p =
              ok_eq (rw (missing, get_or_create_partition) at e) in
            rw (missing, get_or_create_partition)
              (find_where-append (is_partition table_id partition_id) s.partitions
                  (new_partition now s.next_partition table_id partition_id) missing
                  (is_partition_self now s.next_partition)
                ∙ ap some same)
        | inr (u, found) ↦
            let same : u ≡ p = ok_eq (rw (found, get_or_create_partition) at e) in
            rw (found, get_or_create_partition) (found ∙ ap some same)
      ]

  pub known_partition :
      (now : ℕ) (s : Store) (p : PartitionState)
      → find_where (is_partition table_id partition_id) s.partitions ≡ some p
      → get_or_create_partition now table_id partition_id s ≡ (ok p, s)
  unfolding get_or_create_partition
  known_partition now s p e = rw (e, get_or_create_partition)

  pub written_partition :
      (s : Store) (p ps : PartitionState)
      → find_where (is_partition table_id partition_id) s.partitions ≡ some p
      → ps.id ≡ p.id
      → ps.table_id ≡ p.table_id
      → ps.partition_id ≡ p.partition_id
      → find_where (is_partition table_id partition_id) (update_partition_sync ps s).1.partitions
        ≡ some ps
  unfolding update_partition_sync
  written_partition s p ps e i j k =
      find_where-update (is_partition table_id partition_id) (λ q. q.id == ps.id) _ s.partitions
        (λ q. refl)
      ∙ rw e (ground arith)

  -- What is written to a partition that was looked up, under the id and the keys of its row, is
  -- what the next look-up returns, at any time, and a look-up alone never changes the row.
  pub partition_written_back :
      (now later : ℕ) (s : Store) (p ps : PartitionState)
      → (get_or_create_partition now table_id partition_id s).0 ≡ ok p
      → ps.id ≡ p.id
      → ps.table_id ≡ p.table_id
      → ps.partition_id ≡ p.partition_id
      → ((get_or_create_partition later table_id partition_id
            (get_or_create_partition now table_id partition_id s).1).0
          ≡ ok p)
        × ((get_or_create_partition later table_id partition_id
              (update_partition_sync ps
                (get_or_create_partition now table_id partition_id s).1).1).0
            ≡ ok ps)
  partition_written_back now later s p ps e i j k = (
    ap (λ (r : Result PartitionState × Store). r.0)
        (known_partition later (get_or_create_partition now table_id partition_id s).1 p
          (partition_found now s p e)),
    ap (λ (r : Result PartitionState × Store). r.0)
        (known_partition later
          (update_partition_sync ps (get_or_create_partition now table_id partition_id s).1).1 ps
          (written_partition (get_or_create_partition now table_id partition_id s).1 p ps
            (partition_found now s p e) i j k)),
  )

-- Acknowledging a schema change fails on every store: the statement sets a column `state` that
-- `Init` does not give to the table, so the version is never promoted.
pub acknowledge_schema_change_fails :
    (table_id version : ℕ) (s : Store)
    → acknowledge_schema_change table_id version s ≡ (err no_such_column, s)
unfolding acknowledge_schema_change str_eq
acknowledge_schema_change_fails table_id version s = refl
