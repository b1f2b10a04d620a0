-- ===== src/Schema/Diff/Fuel.antt =====
-- The bound on the nesting is never met, so `diff_fields` is the recursive function of the source.
use bqcubbit.Base.{
  ℕ, zero, suc, ◌<◌, Text, Option, none, some, List, [], ◌∷◌, ◌≡◌, refl, ◌∙◌, arith,
}
use bqcubbit.Schema.{Fields, Field, find}
use bqcubbit.Schema.Diff.{
  FieldChange, diff_name, diff_names, join_path, diff_fuel, diff_fields, size, sorted_names,
}
use bqcubbit.Schema.Diff.Names.{size-find}

module _ (rec rec' : Fields → Fields → Text → List FieldChange) where
  diff_name-congr :
      (path : Text) (o p : Option Field)
      → ((f g : Field) → o ≡ some f → rec f.fields g.fields path ≡ rec' f.fields g.fields path)
      → diff_name rec path o p ≡ diff_name rec' path o p
  unfolding diff_name
  diff_name-congr path none none h = refl
  diff_name-congr path none (some g) h = refl
  diff_name-congr path (some f) none h = refl
  diff_name-congr path (some f) (some g) h = rw (h f g refl)

  diff_names-congr :
      (a b : Fields) (prefix : Text) (ns : List Text)
      → ((n : Text) (f g : Field) (path : Text)
          → find n a ≡ some f
          → rec f.fields g.fields path ≡ rec' f.fields g.fields path)
      → diff_names rec a b prefix ns ≡ diff_names rec' a b prefix ns
  diff_names-congr a b prefix [] h = unfold diff_names in refl
  diff_names-congr a b prefix (n ∷ ns) h = step (diff_names-congr a b prefix ns h)
    where
      step :
          diff_names rec a b prefix ns ≡ diff_names rec' a b prefix ns
          → diff_names rec a b prefix (n ∷ ns) ≡ diff_names rec' a b prefix (n ∷ ns)
      step ih =
          unfold diff_names in
          rw (
            ih,
            diff_name-congr (join_path prefix n) (find n a) (find n b)
                (λ f g e. h n f g (join_path prefix n) e),
          )

-- Any two bounds above the size of the old list give one result.
diff_fuel_agree :
    (k m : ℕ) (a b : Fields) (prefix : Text)
    → size a < k
    → size a < m
    → diff_fuel k a b prefix ≡ diff_fuel m a b prefix
unfolding diff_fuel
diff_fuel_agree zero m a b prefix h h' = absurd (omega arith)
diff_fuel_agree (suc k) zero a b prefix h h' = absurd (omega arith)
diff_fuel_agree (suc k) (suc m) a b prefix h h' =
    diff_names-congr (diff_fuel k) (diff_fuel m) a b prefix (sorted_names a b) λ n f g path e.
      diff_fuel_agree k m f.fields g.fields path (omega (arith, size-find n a f e))
        (omega (arith, size-find n a f e))

-- `diff_fields`, which runs on a bound on the nesting, satisfies the recursive equation of
-- `diffFields`, which has none: the bound is never met.
pub diff_fields_lem :
    (old_fields new_fields : Fields) (prefix : Text)
    → diff_fields old_fields new_fields prefix
      ≡ diff_names diff_fields old_fields new_fields prefix (sorted_names old_fields new_fields)
diff_fields_lem a b prefix =
    open_lem
    ∙ diff_names-congr (diff_fuel (size a)) diff_fields a b prefix (sorted_names a b)
        λ n f g path e. same n f g path e
  where
    open_lem :
        diff_fields a b prefix ≡ diff_names (diff_fuel (size a)) a b prefix (sorted_names a b)
    open_lem = unfold diff_fields in refl

    same :
        (n : Text) (f g : Field) (path : Text)
        → find n a ≡ some f
        → diff_fuel (size a) f.fields g.fields path ≡ diff_fields f.fields g.fields path
    same n f g path e =
        diff_fuel_agree (size a) (suc (size f.fields)) f.fields g.fields path (size-find n a f e)
          (omega arith)
        ∙ (unfold diff_fields in refl)
