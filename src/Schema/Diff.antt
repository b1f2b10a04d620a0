-- ===== src/Schema/Diff.antt =====
-- internal/schema/schema.go, `diffFields`.
pub mod Names
pub mod Changes
pub mod Fuel
use bqcubbit.Base.{
  ℕ, zero, suc, ◌+◌, Text, str_eq, str_lt, codes, if◌then◌else◌, Option, none, some, List, [], ◌∷◌,
  ◌++◌,
}
use bqcubbit.Schema.{Head, Fields, nil, cons, Field, find}

-- `FieldChangeType`
pub data FieldChangeType : Type 0 where
  field_add field_drop field_type_change : FieldChangeType

-- `FieldChange`; the pointers `Before` and `After` may be nil.
pub record FieldChange : Type 0 where
  pub type : FieldChangeType
  pub path : Text
  pub before : Option Field
  pub after : Option Field

-- One key into the sorted list of distinct keys.
unfoldable pub insert_name : Text → List Text → List Text
insert_name n [] = n ∷ []
insert_name n (m ∷ ms) =
    if str_eq n m then m ∷ ms else if str_lt n m then n ∷ (m ∷ ms) else m ∷ insert_name n ms

unfoldable pub insert_names : Fields → List Text → List Text
unfolding insert_name
insert_names nil ns = ns
insert_names (cons h s r) ns = insert_name h.name (insert_names r ns)

-- `sortedNames`: the keys of both maps, each once, in order.
unfoldable pub sorted_names : Fields → Fields → List Text
unfolding insert_names
sorted_names old_fields new_fields = insert_names old_fields (insert_names new_fields [])

unfoldable pub join_path : Text → Text → Text
join_path prefix name = if str_eq prefix [] then name else prefix ++ (b'.' ∷ name)

-- The `switch` for one name, on what the two maps hold; `rec` is `diffFields` itself.
unfoldable pub diff_name :
    (Fields → Fields → Text → List FieldChange)
    → Text
    → Option Field
    → Option Field
    → List FieldChange
diff_name rec path none none = []
diff_name rec path none (some f) =
    record { type = field_add; path = path; before = none; after = some f } ∷ []
diff_name rec path (some f) none =
    record { type = field_drop; path = path; before = some f; after = none } ∷ []
diff_name rec path (some f) (some g) =
    if str_eq f.head.type g.head.type
    then rec f.fields g.fields path
    else record { type = field_type_change; path = path; before = some f; after = some g } ∷ []

unfoldable pub diff_names :
    (Fields → Fields → Text → List FieldChange)
    → Fields
    → Fields
    → Text
    → List Text
    → List FieldChange
unfolding diff_name join_path find
diff_names rec old_fields new_fields prefix [] = []
diff_names rec old_fields new_fields prefix (n ∷ ns) =
    diff_name rec (join_path prefix n) (find n old_fields) (find n new_fields)
    ++ diff_names rec old_fields new_fields prefix ns

-- `diffFields` with a bound on the nesting that it enters.
unfoldable pub diff_fuel : ℕ → Fields → Fields → Text → List FieldChange
unfolding diff_names sorted_names
diff_fuel zero old_fields new_fields prefix = []
diff_fuel (suc n) old_fields new_fields prefix =
    diff_names (diff_fuel n) old_fields new_fields prefix (sorted_names old_fields new_fields)

-- The number of fields, nested ones included.
unfoldable pub size : Fields → ℕ
size nil = 0
size (cons h s r) = suc (size s + size r)

-- Each call of `diffFields` enters the nested fields of one old field, so the size of the old list
-- bounds the nesting.
unfoldable pub diff_fields : Fields → Fields → Text → List FieldChange
unfolding diff_fuel size
diff_fields old_fields new_fields prefix =
    diff_fuel (suc (size old_fields)) old_fields new_fields prefix
