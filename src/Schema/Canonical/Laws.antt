-- ===== src/Schema/Canonical/Laws.antt =====
-- What the canonical hash identifies: field lists up to order and descriptions, and no others.
use bqcubbit.Base.{
  Text, ◌≡◌, ◌↔◌, refl, ap, sym, ◌∙◌, Bool, true, false, str_lt, Bool-cases, inl, inr,
}
use bqcubbit.Schema.{Head, Fields, nil, cons}
use bqcubbit.Schema.Sort.{insert, sort_fields_copy}
use bqcubbit.Schema.Sort.Laws.{Reorder, sort-Reorder, sort_idem}
use bqcubbit.Schema.Canonical.{nested, canonical_from, canonical_bytes, canonical_hash}
use bqcubbit.Schema.Canonical.Injective.{IsClean, strip, canonical_bytes-injective}

-- The digest takes these two inputs to different values, if they differ.
abbrev pub NoCollision : (Text → Text) → Text → Text → Type 0
NoCollision digest x y = digest x ≡ digest y → x ≡ y

-- Reordering the fields, at any level, does not change the hash.
pub canonical_hash-Reorder :
    (sha256_hex : Text → Text) {a b : Fields}
    → Reorder a b
    → canonical_hash sha256_hex a ≡ canonical_hash sha256_hex b
unfolding canonical_hash
canonical_hash-Reorder sha256_hex p = rw (sort-Reorder p)

pub canonical_hash-sort :
    (sha256_hex : Text → Text) (a : Fields)
    → canonical_hash sha256_hex (sort_fields_copy a) ≡ canonical_hash sha256_hex a
canonical_hash-sort sha256_hex a = unfold canonical_hash canonical_bytes in rw (sort_idem a)

insert-IsClean : (h : Head) (s r : Fields) → IsClean (cons h s r) → IsClean (insert h s r)
unfolding insert
insert-IsClean h s nil p = p
insert-IsClean h s (cons k t r) p = elim (Bool-cases (str_lt k.name h.name)) [
  | inl lt ↦ rw lt (p.2.0, p.2.1, insert-IsClean h s r (p.0, p.1, p.2.2))
  | inr ge ↦ rw ge p
]

pub sort-IsClean : (a : Fields) → IsClean a → IsClean (sort_fields_copy a)
unfolding sort_fields_copy
sort-IsClean nil p = tt
sort-IsClean (cons h s r) p = insert-IsClean h _ _ (p.0, sort-IsClean s p.1, sort-IsClean r p.2)

nested-strip : (s : Fields) (b : Text) → nested (strip s) b ≡ nested s b
unfolding nested strip
nested-strip nil b = refl
nested-strip (cons h s r) b = refl

canonical_from-strip :
    (first : Bool) (a : Fields) → canonical_from first (strip a) ≡ canonical_from first a
unfolding canonical_from strip
canonical_from-strip first nil = refl
canonical_from-strip first (cons h s r) =
    rw (nested-strip s, canonical_from-strip true s, canonical_from-strip false r)

canonical_bytes-strip : (a : Fields) → canonical_bytes (strip a) ≡ canonical_bytes a
unfolding canonical_bytes
canonical_bytes-strip a = canonical_from-strip true a

-- Where the digest does not collide on the two inputs, two clean field lists have one hash exactly
-- when they are equal after sorting, up to descriptions.
pub canonical_hash_exact :
    (sha256_hex : Text → Text) (a b : Fields)
    → IsClean a
    → IsClean b
    → NoCollision sha256_hex
        (canonical_bytes (sort_fields_copy a))
        (canonical_bytes (sort_fields_copy b))
    → (canonical_hash sha256_hex a ≡ canonical_hash sha256_hex b)
      ↔ (strip (sort_fields_copy a) ≡ strip (sort_fields_copy b))
unfolding canonical_hash
canonical_hash_exact sha256_hex a b p q free = (
  λ e. canonical_bytes-injective _ _ (sort-IsClean a p) (sort-IsClean b q) (free e),
  λ e.
      ap sha256_hex
        (sym (canonical_bytes-strip _) ∙ ap canonical_bytes e ∙ canonical_bytes-strip _),
)
