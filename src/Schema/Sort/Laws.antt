-- ===== src/Schema/Sort/Laws.antt =====
-- `sortFieldsCopy` sorts, does nothing to a sorted list, and forgets the order of its input.
use bqcubbit.Base.{
  Text, str_lt, str_lt_irrefl, str_lt_trans, str_lt_total, ◌≡◌, ◌≢◌, refl, sym, ◌∙◌, true, false,
  arith, Bool-cases, inl, inr,
}
use bqcubbit.Schema.{Head, Fields, nil, cons}
use bqcubbit.Schema.Sort.{insert, sort_fields_copy}

-- No field of the list is called less than `h`'s name, as far as its first one.
abbrev pub Front : Head → Fields → Type 0
Front h nil = Unit
Front h (cons k t r) = str_lt k.name h.name ≡ false

-- Sorted by name at every level.
abbrev pub IsSorted : Fields → Type 0
IsSorted nil = Unit
IsSorted (cons h s r) = Front h r × IsSorted s × IsSorted r

str_lt_asym : (a b : Text) → str_lt a b ≡ true → str_lt b a ≡ false
str_lt_asym a b h = elim (Bool-cases (str_lt b a)) [
  | inl k ↦ cc (str_lt_trans a b a h k, str_lt_irrefl a)
  | inr k ↦ k
]

Front-insert :
    (h k : Head) (s r : Fields) → str_lt k.name h.name ≡ true → Front k r → Front k (insert h s r)
unfolding insert
Front-insert h k s nil lt f = str_lt_asym k.name h.name lt
Front-insert h k s (cons j t r) lt f = ground (arith, str_lt_asym k.name h.name lt)

insert-IsSorted : (h : Head) (s r : Fields) → IsSorted s → IsSorted r → IsSorted (insert h s r)
unfolding insert
insert-IsSorted h s nil a b = (tt, a, tt)
insert-IsSorted h s (cons k t r) a b = elim (Bool-cases (str_lt k.name h.name)) [
  | inl lt ↦ rw lt (Front-insert h k s r lt b.0, b.1, insert-IsSorted h s r a b.2)
  | inr ge ↦ rw ge (ge, a, b)
]

pub sort-IsSorted : (a : Fields) → IsSorted (sort_fields_copy a)
unfolding sort_fields_copy
sort-IsSorted nil = tt
sort-IsSorted (cons h s r) = insert-IsSorted h _ _ (sort-IsSorted s) (sort-IsSorted r)

insert-Front : (h : Head) (s r : Fields) → Front h r → insert h s r ≡ cons h s r
unfolding insert
insert-Front h s nil f = refl
insert-Front h s (cons k t r) f = rw f

pub sort_of_IsSorted : (a : Fields) → IsSorted a → sort_fields_copy a ≡ a
unfolding sort_fields_copy
sort_of_IsSorted nil w = refl
sort_of_IsSorted (cons h s r) w =
    rw (sort_of_IsSorted s w.1, sort_of_IsSorted r w.2) (insert-Front h s r w.0)

pub sort_idem : (a : Fields) → sort_fields_copy (sort_fields_copy a) ≡ sort_fields_copy a
sort_idem a = sort_of_IsSorted _ (sort-IsSorted a)

-- The same fields in another order, at every level; fields of one name keep their order.
pub data Reorder : Fields → Fields → Type 0 where
  none : Reorder nil nil
  keep :
      (h : Head) {s s' r r' : Fields}
      → Reorder s s'
      → Reorder r r'
      → Reorder (cons h s r) (cons h s' r')
  swap :
      (h k : Head) (s t r : Fields)
      → h.name ≢ k.name
      → Reorder (cons h s (cons k t r)) (cons k t (cons h s r))
  trans : {a b c : Fields} → Reorder a b → Reorder b c → Reorder a c

insert_comm_lt :
    (h k : Head) (s t r : Fields)
    → str_lt h.name k.name ≡ true
    → insert h s (insert k t r) ≡ insert k t (insert h s r)
unfolding insert
insert_comm_lt h k s t nil lt = ground (arith, str_lt_asym h.name k.name lt)
insert_comm_lt h k s t (cons j u r) lt = ground (
  arith,
  str_lt_asym h.name k.name lt,
  str_lt_trans j.name h.name k.name,
  insert_comm_lt h k s t r lt,
)

insert_comm :
    (h k : Head) (s t r : Fields)
    → h.name ≢ k.name
    → insert h s (insert k t r) ≡ insert k t (insert h s r)
insert_comm h k s t r ne = elim (Bool-cases (str_lt h.name k.name)) [
  | inl lt ↦ insert_comm_lt h k s t r lt
  | inr ge ↦ elim (Bool-cases (str_lt k.name h.name)) [
    | inl gt ↦ sym (insert_comm_lt k h t s r gt)
    | inr le ↦ absurd (ne (str_lt_total h.name k.name ge le))
  ]
]

pub sort-Reorder : {a b : Fields} → Reorder a b → sort_fields_copy a ≡ sort_fields_copy b
unfolding sort_fields_copy
sort-Reorder none = refl
sort-Reorder (keep h s r) = rw (sort-Reorder s, sort-Reorder r)
sort-Reorder (swap h k s t r ne) = insert_comm h k _ _ _ ne
sort-Reorder (trans p q) = sort-Reorder p ∙ sort-Reorder q
