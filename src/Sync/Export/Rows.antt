-- ===== src/Sync/Export/Rows.antt =====
-- The rows of the partitions of a batch after its export.
use bqcubbit.Base.{ℕ, Text, some, List, [], ◌∷◌, ◌≡◌, refl, sym, ap, subst, ◌∙◌, inl, inr, All}
use bqcubbit.State.{PartitionState, Result}
use bqcubbit.State.Sqlite.{Store}
use bqcubbit.State.Sqlite.Tables.{get_or_create_partition, update_partition_sync}
use bqcubbit.State.Sqlite.Tables.Laws.{written_partition}
use bqcubbit.State.Sqlite.Tables.Partitions.{
  partition_row, outside, get_or_create_partition-some, get_or_create_partition_row,
  update_partition_row,
}
use bqcubbit.Sync.{PartitionInfo}
use bqcubbit.Sync.Keys.{Now}
use bqcubbit.Sync.Orchestrator.{Orchestrator}
use bqcubbit.Sync.Export.{exported_state, write_row, write_rows}

-- The row of a partition tells of that export.
abbrev pub Marked : Now → ℕ → ℕ → Text → ℕ → Text → Store → Type 0
Marked now version bytes path table_id id s =
    (r : PartitionState) × (partition_row table_id id s ≡ some r)
    × (r.schema_version ≡ version)
    × (r.last_successful_sync ≡ some now.seconds)
    × (r.bytes_in_cubbit ≡ bytes)
    × (r.last_exported_path ≡ path)

module _ (o : Orchestrator) (now : Now) (version bytes : ℕ) (path : Text) (table_id : ℕ) where
  write_row-Marked :
      (id : Text) (s : Store)
      → Marked now version bytes path table_id id
          (write_row o now version bytes path (get_or_create_partition now.seconds table_id id s))
  unfolding write_row exported_state
  write_row-Marked id s =
      let (p, s', found, row, same) = get_or_create_partition-some now.seconds table_id id s in
      rw found (
        exported_state o now version bytes path p,
        written_partition table_id id s' p (exported_state o now version bytes path p) row refl refl
            refl,
        refl,
        refl,
        refl,
        refl,
      )

  write_row_keeps :
      (other id : Text) (s : Store)
      → Marked now version bytes path table_id id s
      → Marked now version bytes path table_id id (
          write_row o now version bytes path (get_or_create_partition now.seconds table_id other s))
  unfolding write_row exported_state
  write_row_keeps other id s (r, row, v, w, b, l) =
      let (p, s', found, mine, same) = get_or_create_partition-some now.seconds table_id other s in
      let still : partition_row table_id id s' ≡ some r =
        ap (λ (a : Result PartitionState × Store). partition_row table_id id a.1) (sym found)
        ∙ get_or_create_partition_row now.seconds table_id other table_id id s r row in
      let (r', row', change) =
        update_partition_row (exported_state o now version bytes path p) table_id id s' r still in
      rw found (elim change [
        | inl e ↦
            subst
              (λ (q : PartitionState).
                Marked now version bytes path table_id id
                  (update_partition_sync (exported_state o now version bytes path p) s').1)
              e (r', row', rw e v, rw e w, rw e b, rw e l)
        | inr (i, j, k, m) ↦ (r', row', i, j, k, m)
      ])

  write_rows_keep :
      (ps : List PartitionInfo) (id : Text) (s : Store)
      → Marked now version bytes path table_id id s
      → Marked now version bytes path table_id id
          (write_rows o now version bytes path table_id ps s)
  unfolding write_rows
  write_rows_keep [] id s m = m
  write_rows_keep (p ∷ ps) id s m =
      write_rows_keep ps id
        (write_row o now version bytes path
          (get_or_create_partition now.seconds table_id p.partition_id s))
        (write_row_keeps p.partition_id id s m)

  pub write_rows-Marked :
      (ps : List PartitionInfo) (s : Store)
      → All
          (λ p.
            Marked now version bytes path table_id p.partition_id
              (write_rows o now version bytes path table_id ps s))
          ps
  unfolding write_rows
  write_rows-Marked [] s = tt
  write_rows-Marked (p ∷ ps) s =
      let s' : Store =
        write_row o now version bytes path
          (get_or_create_partition now.seconds table_id p.partition_id s) in
      (
        write_rows_keep ps p.partition_id s' (write_row-Marked p.partition_id s),
        write_rows-Marked ps s',
      )

  write_row-outside :
      (id : Text) (s : Store)
      → outside
          (write_row o now version bytes path (get_or_create_partition now.seconds table_id id s))
        ≡ outside s
  unfolding write_row update_partition_sync
  write_row-outside id s =
      let (p, s', found, row, same) = get_or_create_partition-some now.seconds table_id id s in
      rw found same.0

  pub write_rows-outside :
      (ps : List PartitionInfo) (s : Store)
      → outside (write_rows o now version bytes path table_id ps s) ≡ outside s
  unfolding write_rows
  write_rows-outside [] s = refl
  write_rows-outside (p ∷ ps) s =
      write_rows-outside ps (
        write_row o now version bytes path
          (get_or_create_partition now.seconds table_id p.partition_id s))
      ∙ write_row-outside p.partition_id s
