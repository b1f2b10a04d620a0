-- ===== src/Schema/Evolution/Modes.antt =====
-- What `Diff` does not look at: modes.
use mathlib.Core.List.{Memᴰ}
use bqcubbit.Base.{
  Text, str_eq, eq_of_str_eq, str_lt, Bool, Bool-cases, true, false, Option, none, some, List, [],
  ◌∷◌, ◌≡◌, inl, inr, refl, ◌∙◌, ap, subst₂, ap₂, ne_of_str_eq, if◌then◌else◌,
}
use bqcubbit.Schema.{Head, Fields, nil, cons, Field, find, or_else}
use bqcubbit.Schema.Sort.{insert, sort_fields_copy}
use bqcubbit.Schema.Canonical.{canonical_hash}
use bqcubbit.Schema.Diff.{FieldChange, diff_fields}
use bqcubbit.Schema.Diff.Changes.{Differs, adds, drops, retypes, inside, diff_fields_exact}
use bqcubbit.Schema.Classify.{unchanged, classify_changes}
use bqcubbit.Schema.Classify.Verdict.{classify_changes_exact}
use bqcubbit.Schema.Evolution.{diff}
use bqcubbit.Schema.Evolution.Laws.{diff_same, diff_other}

-- Lists of fields with the same names and types in the same places, at every level; modes and
-- descriptions are free.
abbrev pub SameShape : Fields → Fields → Type 0
SameShape nil nil = Unit
SameShape nil (cons k t q) = ⊥
SameShape (cons h s r) nil = ⊥
SameShape (cons h s r) (cons k t q) =
    (h.name ≡ k.name) × (h.type ≡ k.type) × SameShape s t × SameShape r q

abbrev SameFound : Option Field → Option Field → Type 0
SameFound none none = Unit
SameFound none (some g) = ⊥
SameFound (some f) none = ⊥
SameFound (some f) (some g) = (f.head.type ≡ g.head.type) × SameShape f.fields g.fields

find-SameShape : (n : Text) (a b : Fields) → SameShape a b → SameFound (find n a) (find n b)
unfolding find
find-SameShape n nil nil w = tt
find-SameShape n nil (cons k t q) w = absurd w
find-SameShape n (cons h s r) nil w = absurd w
find-SameShape n (cons h s r) (cons k t q) w =
    go (find n r) (find n q) (find-SameShape n r q w.3) (str_eq h.name n) (str_eq k.name n)
      (ap (λ (x : Text). str_eq x n) w.0)
  where
    go :
        (o p : Option Field)
        → SameFound o p
        → (b c : Bool) → b ≡ c
        → SameFound
            (or_else o (if b then some (record { head = h; fields = s }) else none))
            (or_else p (if c then some (record { head = k; fields = t }) else none))
    go none none v true true e = (w.1, w.2)
    go none none v true false e = absurd (cc)
    go none none v false true e = absurd (cc)
    go none none v false false e = tt
    go none (some g) v b c e = absurd v
    go (some f) none v b c e = absurd v
    go (some f) (some g) v b c e = v

Differs-SameShape :
    {a b : Fields} {p : Text} {c : FieldChange} → Differs a b p c → ¬ (SameShape a b)
Differs-SameShape {a} {b} (adds n g e d same) w = subst₂ SameFound e d (find-SameShape n a b w)
Differs-SameShape {a} {b} (drops n f e d same) w = subst₂ SameFound e d (find-SameShape n a b w)
Differs-SameShape {a} {b} (retypes n f g e d ne same) w =
    ne (subst₂ SameFound e d (find-SameShape n a b w)).0
Differs-SameShape {a} {b} (inside n f g e d same deep) w =
    Differs-SameShape deep (subst₂ SameFound e d (find-SameShape n a b w)).1

insert-SameShape :
    (h k : Head) (s t r q : Fields)
    → h.name ≡ k.name
    → h.type ≡ k.type
    → SameShape s t
    → SameShape r q
    → SameShape (insert h s r) (insert k t q)
unfolding insert
insert-SameShape h k s t nil nil e d w v = (e, d, w, tt)
insert-SameShape h k s t nil (cons i j q) e d w v = absurd v
insert-SameShape h k s t (cons i j r) nil e d w v = absurd v
insert-SameShape h k s t (cons i j r) (cons i' j' q) e d w v =
    go (str_lt i.name h.name) (str_lt i'.name k.name) (ap₂ str_lt v.0 e)
      (insert-SameShape h k s t r q e d w v.3)
  where
    go :
        (b c : Bool)
        → b ≡ c
        → SameShape (insert h s r) (insert k t q)
        → SameShape
            (if b then cons i j (insert h s r) else cons h s (cons i j r))
            (if c then cons i' j' (insert k t q) else cons k t (cons i' j' q))
    go true true same ih = (v.0, v.1, v.2, ih)
    go true false same ih = absurd (cc)
    go false true same ih = absurd (cc)
    go false false same ih = (e, d, w, v)

sort-SameShape :
    (a b : Fields) → SameShape a b → SameShape (sort_fields_copy a) (sort_fields_copy b)
unfolding sort_fields_copy
sort-SameShape nil nil w = tt
sort-SameShape nil (cons k t q) w = absurd w
sort-SameShape (cons h s r) nil w = absurd w
sort-SameShape (cons h s r) (cons k t q) w =
    insert-SameShape h k _ _ _ _ w.0 w.1 (sort-SameShape s t w.2) (sort-SameShape r q w.3)

no_members : (cs : List FieldChange) → ((c : FieldChange) → ¬ (Memᴰ c cs)) → cs ≡ []
no_members [] h = refl
no_members (c ∷ cs) h = absurd (h c (Memᴰ.head refl))

-- A change of modes alone, such as NULLABLE to REQUIRED, is reported as NONE with no changes,
-- whatever the hashes say.
pub diff_ignores_modes :
    (sha256_hex : Text → Text) (old_fields new_fields : Fields)
    → SameShape old_fields new_fields
    → ((diff sha256_hex old_fields new_fields).change_type ≡ unchanged)
      × ((diff sha256_hex old_fields new_fields).changes ≡ [])
diff_ignores_modes sha256_hex a b w =
    elim (Bool-cases (str_eq (canonical_hash sha256_hex a) (canonical_hash sha256_hex b))) [
      | inl same ↦ diff_same sha256_hex a b (eq_of_str_eq _ _ same)
      | inr other ↦
          let (verdict, reported) = diff_other sha256_hex a b (ne_of_str_eq _ _ other) in
          (
            verdict ∙ ap classify_changes nothing ∙ (classify_changes_exact [] unchanged).1 refl,
            reported ∙ nothing,
          )
    ]
  where
    nothing : diff_fields (sort_fields_copy a) (sort_fields_copy b) [] ≡ []
    nothing =
        no_members _
          (λ c m. Differs-SameShape ((diff_fields_exact _ _ [] c).0 m) (sort-SameShape a b w))
