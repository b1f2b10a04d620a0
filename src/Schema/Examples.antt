-- ===== src/Schema/Examples.antt =====
-- Schema theorems at concrete tables, and runs of the definitions. The digest is the identity
-- where a theorem asks for one that does not collide.
use mathlib.Core.List.{Memᴰ}
use bqcubbit.Base.{Text, codes, str_eq, [], ◌∷◌, ◌++◌, ◌≡◌, ◌↔◌, refl}
use bqcubbit.Schema.{Head, Fields, nil, cons, Field}
use bqcubbit.Schema.Sort.{sort_fields_copy}
use bqcubbit.Schema.Canonical.{canonical_bytes, canonical_hash}
use bqcubbit.Schema.Canonical.Injective.{strip}
use bqcubbit.Schema.Canonical.Laws.{canonical_hash_exact}
use bqcubbit.Schema.Diff.{diff_fields}
use bqcubbit.Schema.Diff.Changes.{Differs, added, diff_fields_exact}
use bqcubbit.Schema.Classify.{unchanged, additive, classify_changes}
use bqcubbit.Schema.Classify.Verdict.{IsVerdict, classify_changes_exact}
use bqcubbit.Schema.Evolution.{diff}
use bqcubbit.Schema.Evolution.Modes.{diff_ignores_modes}

abbrev column : Text → Text → Text → Text → Head
column name type mode description = record {
  name = name;
  type = type;
  mode = mode;
  description = description;
}

abbrev id_column : Head
id_column = column (codes "id") (codes "INT64") (codes "REQUIRED") []

abbrev tag_column : Head
tag_column = column (codes "tag") (codes "STRING") (codes "NULLABLE") []

abbrev described : Head
described = column (codes "tag") (codes "STRING") (codes "NULLABLE") (codes "a label")

-- A table with one nested field.
abbrev id_then_tag : Fields
id_then_tag = cons id_column nil (cons tag_column (cons id_column nil nil) nil)

abbrev id_only : Fields
id_only = cons id_column nil nil

abbrev identity : Text → Text
identity t = t

canonical_bytes_run :
    canonical_bytes id_only ≡ codes "id" ++ (0 ∷ (codes "INT64" ++ (0 ∷ codes "REQUIRED")))
unfolding canonical_bytes
canonical_bytes_run = refl

canonical_hash_exact_example :
    (canonical_hash identity id_then_tag ≡ canonical_hash identity id_only)
    ↔ (strip (sort_fields_copy id_then_tag) ≡ strip (sort_fields_copy id_only))
canonical_hash_exact_example =
    canonical_hash_exact identity id_then_tag id_only
      ((refl, refl, refl), tt, ((refl, refl, refl), ((refl, refl, refl), tt, tt), tt))
      ((refl, refl, refl), tt, tt) (λ e. e)

abbrev tag_field : Field
tag_field = record { head = tag_column; fields = cons id_column nil nil }

diff_fields_exact_example :
    Memᴰ (added (codes "tag") tag_field) (diff_fields id_only id_then_tag [])
    ↔ Differs id_only id_then_tag [] (added (codes "tag") tag_field)
diff_fields_exact_example = diff_fields_exact id_only id_then_tag [] (added (codes "tag") tag_field)

classify_changes_exact_example :
    (classify_changes (added (codes "tag") tag_field ∷ []) ≡ additive)
    ↔ IsVerdict (added (codes "tag") tag_field ∷ []) additive
classify_changes_exact_example =
    classify_changes_exact (added (codes "tag") tag_field ∷ []) additive

classify_run : classify_changes (added (codes "tag") tag_field ∷ []) ≡ additive
unfolding classify_changes str_eq
classify_run = refl

abbrev nullable_id : Fields
nullable_id = cons (column (codes "id") (codes "INT64") (codes "NULLABLE") []) nil nil

diff_ignores_modes_example :
    ((diff identity nullable_id id_only).change_type ≡ unchanged)
    × ((diff identity nullable_id id_only).changes ≡ [])
diff_ignores_modes_example = diff_ignores_modes identity nullable_id id_only (refl, refl, tt, tt)
