-- ===== src/Sync/Discover.antt =====
-- internal/sync/partitions.go: the partitions that INFORMATION_SCHEMA lists. The BigQuery client is
-- an argument: for the text of a query, its location and its parameter, the rows that the iterator
-- gives, `none` for one that cannot be read, or `none` if the query fails.
use bqcubbit.Base.{
  ℕ, Text, codes, Bool, true, false, Option, none, some, List, [], ◌∷◌, ◌++◌, map, ◌≡◌, ◌↔◌, refl,
  sym, ap, subst, ◌∙◌, Option-cases, inl, inr,
}
use bqcubbit.Sync.{PartitionInfo}

-- `row` of the loop.
pub record PartitionRow : Type 0 where
  pub table_catalog : Text
  pub table_schema : Text
  pub table_name : Text
  pub partition_id : Text
  pub total_rows : ℕ
  pub total_logical_bytes : ℕ
  pub last_modified_time : ℕ

-- The value that the loop appends.
unfoldable pub info_of : PartitionRow → PartitionInfo
info_of r = record {
  table_project = r.table_catalog;
  table_dataset = r.table_schema;
  table_name = r.table_name;
  partition_id = r.partition_id;
  total_rows = r.total_rows;
  total_logical_bytes = r.total_logical_bytes;
  last_modified_time = r.last_modified_time;
}

abbrev pub Query : Type 0
Query = Text → Text → Option ℕ → Option (List (Option PartitionRow))

-- The clause that a watermark adds to the query, which has a WHERE clause already.
unfoldable pub watermark_clause : Option ℕ → Text
watermark_clause none = []
watermark_clause (some w) = codes " WHERE last_modified_time > @watermark"

unfoldable pub partitions_query : Text → Text → Option ℕ → Text
unfolding watermark_clause
partitions_query project dataset watermark =
    codes "SELECT table_catalog, table_schema, table_name, partition_id, total_rows, "
    ++ (codes "total_logical_bytes, last_modified_time FROM `"
        ++ (project
            ++ (codes "."
                ++ (dataset
                    ++ (codes ".INFORMATION_SCHEMA.PARTITIONS` WHERE partition_id IS NOT NULL"
                        ++ (watermark_clause watermark
                            ++ codes
                                " ORDER BY table_catalog, table_schema, table_name, partition_id"))))))

-- The loop over the rows.
unfoldable pub read_rows : List (Option PartitionRow) → Option (List PartitionInfo)
unfolding info_of
read_rows [] = some []
read_rows (none ∷ rows) = none
read_rows (some r ∷ rows) = elim (read_rows rows) [ none ↦ none | some ps ↦ some (info_of r ∷ ps) ]

unfoldable pub query_rows : Option (List (Option PartitionRow)) → Option (List PartitionInfo)
unfolding read_rows
query_rows none = none
query_rows (some rows) = read_rows rows

-- `discoverPartitionsForDataset`
unfoldable pub discover_for_dataset :
    Query → Text → Text → Option ℕ → Text → Option (List PartitionInfo)
unfolding query_rows partitions_query
discover_for_dataset query project location watermark dataset =
    query_rows (query (partitions_query project dataset watermark) location watermark)

-- `results = append(results, parts...)`, and the datasets after it.
unfoldable pub append_parts :
    Option (List PartitionInfo) → Option (List PartitionInfo) → Option (List PartitionInfo)
append_parts none rest = none
append_parts (some ps) none = none
append_parts (some ps) (some qs) = some (ps ++ qs)

-- The loop over the datasets.
unfoldable pub discover_datasets :
    Query → Text → Text → Option ℕ → List Text → Option (List PartitionInfo)
unfolding discover_for_dataset append_parts
discover_datasets query project location watermark [] = some []
discover_datasets query project location watermark (d ∷ ds) =
    append_parts (discover_for_dataset query project location watermark d)
      (discover_datasets query project location watermark ds)

-- `DiscoverPartitions`; the client is there or not.
unfoldable pub discover_partitions :
    Bool → Query → Text → Text → List Text → Option ℕ → Option (List PartitionInfo)
unfolding discover_datasets
discover_partitions false query project location datasets watermark = none
discover_partitions true query project location datasets watermark =
    discover_datasets query project location watermark datasets

module _ (query : Query) (project location : Text) (watermark : Option ℕ) where
  -- The partitions of the datasets, one after the other.
  pub data Discovered : List Text → List PartitionInfo → Type 0 where
    no_datasets : Discovered [] []
    dataset :
        {d : Text} {ds : List Text} {qs all : List PartitionInfo} (rows : List PartitionRow)
        → query (partitions_query project d watermark) location watermark ≡ some (map some rows)
        → Discovered ds qs
        → all ≡ map info_of rows ++ qs
        → Discovered (d ∷ ds) all

  read_rows_some :
      (rows : List (Option PartitionRow)) (ps : List PartitionInfo)
      → read_rows rows ≡ some ps
      → (rs : List PartitionRow) × (rows ≡ map some rs) × (ps ≡ map info_of rs)
  unfolding read_rows
  read_rows_some [] ps e = ([], refl, cc)
  read_rows_some (none ∷ rows) ps e = cc
  read_rows_some (some r ∷ rows) ps e = elim (Option-cases (read_rows rows)) [
    | inl fails ↦ cc (rw fails at e)
    | inr (qs, reads) ↦
        let (rs, same, infos) = read_rows_some rows qs reads in
        let e' : some (info_of r ∷ qs) ≡ some ps = rw reads at e in
        (r ∷ rs, ap (λ (xs : List (Option PartitionRow)). some r ∷ xs) same, cc (e', infos))
  ]

  read_rows-map : (rs : List PartitionRow) → read_rows (map some rs) ≡ some (map info_of rs)
  unfolding read_rows
  read_rows-map [] = refl
  read_rows-map (r ∷ rs) = rw (read_rows-map rs) refl

  query_rows-some :
      (answer : Option (List (Option PartitionRow))) (ps : List PartitionInfo)
      → query_rows answer ≡ some ps
      → (rs : List PartitionRow) × (answer ≡ some (map some rs)) × (ps ≡ map info_of rs)
  unfolding query_rows
  query_rows-some none ps e = cc
  query_rows-some (some rows) ps e =
      let (rs, same, infos) = read_rows_some rows ps e in (rs, ap some same, infos)

  append_parts-some :
      (a b : Option (List PartitionInfo)) (all : List PartitionInfo)
      → append_parts a b ≡ some all
      → (ps qs : List PartitionInfo) × (a ≡ some ps) × (b ≡ some qs) × (all ≡ ps ++ qs)
  unfolding append_parts
  append_parts-some none b all e = cc
  append_parts-some (some ps) none all e = cc
  append_parts-some (some ps) (some qs) all e = (ps, qs, refl, refl, cc)

  discovered_of :
      (ds : List Text) (all : List PartitionInfo)
      → discover_datasets query project location watermark ds ≡ some all
      → Discovered ds all
  unfolding discover_datasets
  discovered_of [] all e = subst (Discovered []) (cc e) no_datasets
  discovered_of (d ∷ ds) all e =
      let (ps, qs, first, rest, joined) =
        append_parts-some (discover_for_dataset query project location watermark d)
          (discover_datasets query project location watermark ds) all e in
      let (rs, answer, infos) =
        query_rows-some (query (partitions_query project d watermark) location watermark) ps
          (unfold discover_for_dataset in first) in
      dataset rs answer (discovered_of ds qs rest)
        (joined ∙ ap (λ (xs : List PartitionInfo). xs ++ qs) infos)

  of_discovered :
      (ds : List Text) (all : List PartitionInfo)
      → Discovered ds all
      → discover_datasets query project location watermark ds ≡ some all
  unfolding discover_datasets discover_for_dataset query_rows append_parts
  of_discovered ds all no_datasets = refl
  of_discovered ds all (dataset {d = d} {ds = es} {qs = qs} rs answer rest joined) =
      rw (answer, query_rows)
        (rw (read_rows-map rs, append_parts)
          (rw (of_discovered es qs rest, append_parts) (ap some (sym joined))))

  -- Where the client is there, `DiscoverPartitions` succeeds exactly when each query is answered
  -- and each row can be read, and then returns the rows of all datasets, in the order of the
  -- datasets.
  pub discover_partitions_exact :
      (datasets : List Text) (all : List PartitionInfo)
      → (discover_partitions true query project location datasets watermark ≡ some all)
        ↔ Discovered datasets all
  unfolding discover_partitions
  discover_partitions_exact datasets all = (discovered_of datasets all, of_discovered datasets all)
