-- ===== src/Schema/Sort.antt =====
-- internal/schema/schema.go, `sortFieldsCopy`.
pub mod Laws
use bqcubbit.Base.{str_lt, if◌then◌else◌}
use bqcubbit.Schema.{Head, Fields, nil, cons}

-- `sort.Slice` by name, as an insertion sort. Where two names are equal `sort.Slice` promises no
-- order; here the fields keep theirs.
unfoldable pub insert : Head → Fields → Fields → Fields
insert h s nil = cons h s nil
insert h s (cons k t r) =
    if str_lt k.name h.name then cons k t (insert h s r) else cons h s (cons k t r)

-- The comparison reads names alone, so sorting the nested lists before or after is the same.
unfoldable pub sort_fields_copy : Fields → Fields
unfolding insert
sort_fields_copy nil = nil
sort_fields_copy (cons h s r) = insert h (sort_fields_copy s) (sort_fields_copy r)
