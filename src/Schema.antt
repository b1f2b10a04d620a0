-- ===== src/Schema.antt =====
-- internal/schema/schema.go: the fields of a BigQuery table. The sort, the canonical form, the
-- diff and its classification are in the modules below.
pub mod Sort
pub mod Canonical
pub mod Diff
pub mod Classify
pub mod Evolution
mod Examples
use bqcubbit.Base.{Text, str_eq, if◌then◌else◌, Option, none, some}

-- The scalar members of `BQField`.
pub record Head : Type 0 where
  pub name : Text
  pub type : Text
  pub mode : Text
  pub description : Text

-- `[]BQField`: a field is its head and the list of its nested fields; it stands in front of the
-- fields after it.
pub data Fields : Type 0 where
  nil : Fields
  cons : Head → Fields → Fields → Fields

-- `BQField`
pub record Field : Type 0 where
  pub head : Head
  pub fields : Fields

or_else {ℓ} : {A : Type ℓ} → Option A → Option A → Option A
or_else none b = b
or_else (some a) b = some a

-- `m := map[string]BQField{}; for _, f := range fields { m[f.Name] = f }`, read at `n`: a later
-- field of the same name replaces an earlier one.
unfoldable pub find : Text → Fields → Option Field
unfolding or_else
find n nil = none
find n (cons h s r) =
    or_else (find n r) (if str_eq h.name n then some (record { head = h; fields = s }) else none)
