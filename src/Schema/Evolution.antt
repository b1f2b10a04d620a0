-- ===== src/Schema/Evolution.antt =====
-- internal/schema/schema.go, `Diff`.
pub mod Laws
pub mod Modes
use bqcubbit.Base.{Text, str_eq, if◌then◌else◌, Bool, true, false, List, []}
use bqcubbit.Schema.{Fields}
use bqcubbit.Schema.Sort.{sort_fields_copy}
use bqcubbit.Schema.Canonical.{canonical_hash}
use bqcubbit.Schema.Diff.{FieldChange, diff_fields}
use bqcubbit.Schema.Classify.{ChangeType, unchanged, additive, classify_changes}

pub record SchemaDiff : Type 0 where
  pub change_type : ChangeType
  pub changes : List FieldChange
  pub new_hash : Text
  pub old_hash : Text

unfoldable pub is_additive : SchemaDiff → Bool
is_additive d = elim d.change_type [ additive ↦ true | _ ↦ false ]

-- The hashes are taken of the sorted copies, which `CanonicalHash` sorts once more.
unfoldable pub diff : (Text → Text) → Fields → Fields → SchemaDiff
diff sha256_hex old_fields new_fields =
    let old_sorted = sort_fields_copy old_fields in
    let new_sorted = sort_fields_copy new_fields in
    let old_hash = canonical_hash sha256_hex old_sorted in
    let new_hash = canonical_hash sha256_hex new_sorted in
    let changes = diff_fields old_sorted new_sorted [] in
    if str_eq old_hash new_hash
    then record { change_type = unchanged; changes = []; new_hash = new_hash; old_hash = old_hash }
    else record {
      change_type = classify_changes changes;
      changes = changes;
      new_hash = new_hash;
      old_hash = old_hash;
    }
