-- ===== src/Schema/Diff/Names.antt =====
-- The names that `diffFields` walks through: the keys of either map.
use mathlib.Core.List.{Memᴰ}
use bqcubbit.Base.{
  ◌<◌, Text, str_eq, str_lt, eq_of_str_eq, some, List, [], ◌∷◌, ◌≡◌, inl, inr, refl, Bool-cases,
  Option-cases, arith,
}
use bqcubbit.Schema.{Fields, nil, cons, Field, find}
use bqcubbit.Schema.Diff.{insert_name, insert_names, sorted_names, size}

-- The map holds what was put there under that name.
pub find-name : (n : Text) (a : Fields) (f : Field) → find n a ≡ some f → f.head.name ≡ n
unfolding find
find-name n nil f e = cc
find-name n (cons h s r) f e = ground (arith, find-name n r f, eq_of_str_eq h.name n)

pub size-find : (n : Text) (a : Fields) (f : Field) → find n a ≡ some f → size f.fields < size a
unfolding find size
size-find n nil f e = cc
size-find n (cons h s r) f e = ground (arith, size-find n r f)

insert_name-head : (n : Text) (ns : List Text) → Memᴰ n (insert_name n ns)
unfolding insert_name
insert_name-head n [] = Memᴰ.head refl
insert_name-head n (m ∷ ms) = elim (Bool-cases (str_eq n m)) [
  | inl same ↦ rw same (Memᴰ.head (eq_of_str_eq n m same))
  | inr other ↦ elim (Bool-cases (str_lt n m)) [
    | inl lt ↦ rw (other, lt) (Memᴰ.head refl)
    | inr ge ↦ rw (other, ge) (Memᴰ.tail (insert_name-head n ms))
  ]
]

insert_name-tail : (n k : Text) (ns : List Text) → Memᴰ k ns → Memᴰ k (insert_name n ns)
unfolding insert_name
insert_name-tail n k [] h = elim h [ ]
insert_name-tail n k (m ∷ ms) h = elim (Bool-cases (str_eq n m)) [
  | inl same ↦ rw same h
  | inr other ↦ elim (Bool-cases (str_lt n m)) [
    | inl lt ↦ rw (other, lt) (Memᴰ.tail h)
    | inr ge ↦
        rw (other, ge)
          (elim h [
            | Memᴰ.head e ↦ Memᴰ.head e
            | Memᴰ.tail t ↦ Memᴰ.tail (insert_name-tail n k ms t)
          ])
  ]
]

mem_insert_names : (k : Text) (a : Fields) (ns : List Text) → Memᴰ k ns → Memᴰ k (insert_names a ns)
unfolding insert_names
mem_insert_names k nil ns h = h
mem_insert_names k (cons h s r) ns m = insert_name-tail h.name k _ (mem_insert_names k r ns m)

mem_insert_names_of_find :
    (k : Text) (a : Fields) (ns : List Text) (f : Field)
    → find k a ≡ some f
    → Memᴰ k (insert_names a ns)
unfolding insert_names find
mem_insert_names_of_find k nil ns f e = cc
mem_insert_names_of_find k (cons h s r) ns f e = elim (Option-cases (find k r)) [
  | inl missing ↦ elim (Bool-cases (str_eq h.name k)) [
    | inl same ↦ rw (← eq_of_str_eq h.name k same) (insert_name-head h.name _)
    | inr other ↦ ground (arith)
  ]
  | inr (g, found) ↦ insert_name-tail h.name k _ (mem_insert_names_of_find k r ns g found)
]

-- A name in either list is walked through.
pub mem_sorted_names_old :
    (k : Text) (a b : Fields) (f : Field) → find k a ≡ some f → Memᴰ k (sorted_names a b)
unfolding sorted_names
mem_sorted_names_old k a b f e = mem_insert_names_of_find k a (insert_names b []) f e

pub mem_sorted_names_new :
    (k : Text) (a b : Fields) (f : Field) → find k b ≡ some f → Memᴰ k (sorted_names a b)
unfolding sorted_names
mem_sorted_names_new k a b f e =
    mem_insert_names k a (insert_names b []) (mem_insert_names_of_find k b [] f e)
