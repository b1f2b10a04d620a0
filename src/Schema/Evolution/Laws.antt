-- ===== src/Schema/Evolution/Laws.antt =====
-- What `Diff` reports about two versions of a table.
use mathlib.Core.List.{Memᴰ}
use bqcubbit.Base.{
  Text, All, str_eq, eq_of_str_eq, str_eq_refl, str_lt, str_lt_irrefl, Bool-cases, Option, none,
  some, List, [], ◌∷◌, ◌≡◌, ◌≢◌, inl, inr, refl, sym, ◌∙◌, ap, arith,
}
use bqcubbit.Schema.{Head, Fields, nil, cons, Field, find}
use bqcubbit.Schema.Sort.{insert, sort_fields_copy}
use bqcubbit.Schema.Canonical.{canonical_bytes, canonical_hash}
use bqcubbit.Schema.Canonical.Injective.{IsClean, strip}
use bqcubbit.Schema.Canonical.Laws.{NoCollision, canonical_hash-sort, canonical_hash_exact}
use bqcubbit.Schema.Diff.{FieldChange, diff_fields, join_path}
use bqcubbit.Schema.Diff.Changes.{drops, dropped, diff_fields_exact}
use bqcubbit.Schema.Classify.{unchanged, breaking, classify_changes}
use bqcubbit.Schema.Classify.Verdict.{IsSafe, new_column, wider, classify_changes_exact}
use bqcubbit.Schema.Evolution.{diff}

-- What the map holds for a field of the sorted copy.
abbrev sorted_field : Option Field → Option Field
sorted_field none = none
sorted_field (some f) = some (record f { fields = sort_fields_copy f.fields })

find-insert : (n : Text) (h : Head) (s r : Fields) → find n (insert h s r) ≡ find n (cons h s r)
unfolding find insert
find-insert n h s nil = refl
find-insert n h s (cons k t r) = elim (Bool-cases (str_lt k.name h.name)) [
  | inl lt ↦
      ground
        (arith, find-insert n h s r, eq_of_str_eq h.name n, eq_of_str_eq k.name n, str_lt_irrefl n)
  | inr ge ↦ rw ge
]

-- Sorting leaves the map of a field list as it was, up to the order inside its fields.
pub find-sort : (n : Text) (a : Fields) → find n (sort_fields_copy a) ≡ sorted_field (find n a)
unfolding sort_fields_copy
find-sort n nil = unfold find in refl
find-sort n (cons h s r) =
    find-insert n h (sort_fields_copy s) (sort_fields_copy r) ∙ step (find-sort n r)
  where
    step :
        find n (sort_fields_copy r) ≡ sorted_field (find n r)
        → find n (cons h (sort_fields_copy s) (sort_fields_copy r))
          ≡ sorted_field (find n (cons h s r))
    step ih = unfold find in ground (arith)

module _ (sha256_hex : Text → Text) (old_fields new_fields : Fields) where
  -- The reported hashes are the canonical hashes of the two inputs.
  pub diff_hashes :
      ((diff sha256_hex old_fields new_fields).old_hash ≡ canonical_hash sha256_hex old_fields)
      × ((diff sha256_hex old_fields new_fields).new_hash ≡ canonical_hash sha256_hex new_fields)
  unfolding diff
  diff_hashes =
      ground (
        arith,
        canonical_hash-sort sha256_hex old_fields,
        canonical_hash-sort sha256_hex new_fields,
      )

  pub diff_same :
      canonical_hash sha256_hex old_fields ≡ canonical_hash sha256_hex new_fields
      → ((diff sha256_hex old_fields new_fields).change_type ≡ unchanged)
        × ((diff sha256_hex old_fields new_fields).changes ≡ [])
  unfolding diff
  diff_same e =
      let same : canonical_hash sha256_hex (sort_fields_copy old_fields)
          ≡ canonical_hash sha256_hex (sort_fields_copy new_fields) =
        canonical_hash-sort sha256_hex old_fields
        ∙ e
        ∙ sym (canonical_hash-sort sha256_hex new_fields) in
      rw (same, str_eq_refl (canonical_hash sha256_hex (sort_fields_copy new_fields))) (refl, refl)

  pub diff_other :
      canonical_hash sha256_hex old_fields ≢ canonical_hash sha256_hex new_fields
      → let changes = diff_fields (sort_fields_copy old_fields) (sort_fields_copy new_fields) [] in
        ((diff sha256_hex old_fields new_fields).change_type ≡ classify_changes changes)
        × ((diff sha256_hex old_fields new_fields).changes ≡ changes)
  unfolding diff
  diff_other ne =
      elim (Bool-cases (
        str_eq (canonical_hash sha256_hex (sort_fields_copy old_fields))
          (canonical_hash sha256_hex (sort_fields_copy new_fields)))) [
            | inl same ↦ absurd (
                ne (
                  sym (canonical_hash-sort sha256_hex old_fields)
                  ∙ eq_of_str_eq _ _ same
                  ∙ canonical_hash-sort sha256_hex new_fields))
            | inr other ↦ rw other (refl, refl)
          ]

find-strip_none : (n : Text) (a : Fields) → find n a ≡ none → find n (strip a) ≡ none
unfolding find strip
find-strip_none n nil e = refl
find-strip_none n (cons h s r) e = ground (arith, find-strip_none n r)

find-strip-some : (n : Text) (a : Fields) (f : Field) → find n a ≡ some f → find n (strip a) ≢ none
unfolding find strip
find-strip-some n nil f e d = cc
find-strip-some n (cons h s r) f e d = ground (arith, find-strip-some n r f)

drop_not-IsSafe : {p : Text} {f : Field} → ¬ (IsSafe (dropped p f))
drop_not-IsSafe (new_column g e e' m) = cc
drop_not-IsSafe (wider f g e e' e'' w) = cc

IsSafe-of_mem : {c : FieldChange} (cs : List FieldChange) → All IsSafe cs → Memᴰ c cs → IsSafe c
IsSafe-of_mem [] w m = elim m [ ]
IsSafe-of_mem (d ∷ cs) w (Memᴰ.head e) = rw e w.0
IsSafe-of_mem (d ∷ cs) w (Memᴰ.tail m) = IsSafe-of_mem cs w.1 m

-- Dropping a column is always breaking: where the names, types and modes are clean and the digest
-- does not collide on the two inputs, a diff of a list that has a column and one that has not is
-- BREAKING.
pub diff_drop_breaking :
    (sha256_hex : Text → Text) (old_fields new_fields : Fields) (n : Text) (f : Field)
    → IsClean old_fields
    → IsClean new_fields
    → NoCollision sha256_hex
        (canonical_bytes (sort_fields_copy old_fields))
        (canonical_bytes (sort_fields_copy new_fields))
    → find n old_fields ≡ some f
    → find n new_fields ≡ none
    → (diff sha256_hex old_fields new_fields).change_type ≡ breaking
diff_drop_breaking sha256_hex a b n f p q free e d =
    (diff_other sha256_hex a b hashes_differ).0
    ∙ (classify_changes_exact _ breaking).1 (λ all. drop_not-IsSafe (IsSafe-of_mem _ all reported))
  where
    e' : find n (sort_fields_copy a) ≡ some (record f { fields = sort_fields_copy f.fields })
    e' = find-sort n a ∙ ap sorted_field e

    d' : find n (sort_fields_copy b) ≡ none
    d' = find-sort n b ∙ ap sorted_field d

    hashes_differ : canonical_hash sha256_hex a ≢ canonical_hash sha256_hex b
    hashes_differ same = find-strip-some n (sort_fields_copy a) _ e' (
        ap (find n) ((canonical_hash_exact sha256_hex a b p q free).0 same)
        ∙ find-strip_none n (sort_fields_copy b) d')

    reported :
        Memᴰ
          (dropped (join_path [] n) (record f { fields = sort_fields_copy f.fields }))
          (diff_fields (sort_fields_copy a) (sort_fields_copy b) [])
    reported = (diff_fields_exact _ _ [] _).1 (drops n _ e' d' refl)
