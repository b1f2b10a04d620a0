-- ===== src/Schema/Diff/Changes.antt =====
-- What `diffFields` reports, against a description of a change by its place.
use mathlib.Core.List.{Memᴰ}
use mathlib.Core.List.Memᴰ
use bqcubbit.Base.{
  ℕ, zero, suc, ◌<◌, Text, str_eq, eq_of_str_eq, str_eq_refl, Bool-cases, false, Option, none, some,
  List, [], ◌∷◌, ◌≡◌, ◌≢◌, ◌↔◌, inl, inr, refl, arith,
}
use bqcubbit.Schema.{Fields, Field, find}
use bqcubbit.Schema.Diff.{
  field_add, field_drop, field_type_change, FieldChange, diff_name, diff_names, join_path,
  diff_fuel, diff_fields, size, sorted_names,
}
use bqcubbit.Schema.Diff.Names.{size-find, mem_sorted_names_old, mem_sorted_names_new}

abbrev pub added : Text → Field → FieldChange
added path f = record { type = field_add; path = path; before = none; after = some f }

abbrev pub dropped : Text → Field → FieldChange
dropped path f = record { type = field_drop; path = path; before = some f; after = none }

abbrev pub retyped : Text → Field → Field → FieldChange
retyped path f g = record { type = field_type_change; path = path; before = some f; after = some g }

-- A change of one named field of the list, or one inside a field that both lists have at one type.
pub data Differs : Fields → Fields → Text → FieldChange → Type 0 where
  adds :
      {a b : Fields} {p : Text} {c : FieldChange} (n : Text) (g : Field)
      → find n a ≡ none
      → find n b ≡ some g
      → c ≡ added (join_path p n) g
      → Differs a b p c
  drops :
      {a b : Fields} {p : Text} {c : FieldChange} (n : Text) (f : Field)
      → find n a ≡ some f
      → find n b ≡ none
      → c ≡ dropped (join_path p n) f
      → Differs a b p c
  retypes :
      {a b : Fields} {p : Text} {c : FieldChange} (n : Text) (f g : Field)
      → find n a ≡ some f
      → find n b ≡ some g
      → f.head.type ≢ g.head.type
      → c ≡ retyped (join_path p n) f g
      → Differs a b p c
  inside :
      {a b : Fields} {p : Text} {c : FieldChange} (n : Text) (f g : Field)
      → find n a ≡ some f
      → find n b ≡ some g
      → f.head.type ≡ g.head.type
      → Differs f.fields g.fields (join_path p n) c
      → Differs a b p c

type_ne : (x y : Text) → str_eq x y ≡ false → x ≢ y
type_ne x y h e = ground (arith, str_eq_refl x)

module _ (rec : Fields → Fields → Text → List FieldChange)
    (sound : (a b : Fields) (p : Text) (c : FieldChange)
      → Memᴰ c (rec a b p)
      → Differs a b p c) where
  diff_name_sound :
      (a b : Fields) (p n : Text) (o q : Option Field) (c : FieldChange)
      → find n a ≡ o
      → find n b ≡ q
      → Memᴰ c (diff_name rec (join_path p n) o q)
      → Differs a b p c
  unfolding diff_name
  diff_name_sound a b p n none none c e d m = elim m [ ]
  diff_name_sound a b p n none (some g) c e d m = adds n g e d (Memᴰ.eq_of_singleton m)
  diff_name_sound a b p n (some f) none c e d m = drops n f e d (Memᴰ.eq_of_singleton m)
  diff_name_sound a b p n (some f) (some g) c e d m =
      elim (Bool-cases (str_eq f.head.type g.head.type)) [
        | inl same ↦
            inside n f g e d (eq_of_str_eq _ _ same) (sound _ _ _ _ (rw (same, diff_name) at m))
        | inr other ↦
            retypes n f g e d (type_ne _ _ other)
              (Memᴰ.eq_of_singleton (rw (other, diff_name) at m))
      ]

  diff_names_sound :
      (a b : Fields) (p : Text) (ns : List Text) (c : FieldChange)
      → Memᴰ c (diff_names rec a b p ns)
      → Differs a b p c
  unfolding diff_names
  diff_names_sound a b p [] c m = elim m [ ]
  diff_names_sound a b p (n ∷ ns) c m =
      elim (Memᴰ.append_cases (diff_name rec (join_path p n) (find n a) (find n b)) m) [
        | inl here ↦ diff_name_sound a b p n (find n a) (find n b) c refl refl here
        | inr later ↦ diff_names_sound a b p ns c later
      ]

diff_fuel_sound :
    (k : ℕ) (a b : Fields) (p : Text) (c : FieldChange)
    → Memᴰ c (diff_fuel k a b p)
    → Differs a b p c
unfolding diff_fuel
diff_fuel_sound zero a b p c m = elim m [ ]
diff_fuel_sound (suc k) a b p c m =
    diff_names_sound (diff_fuel k) (diff_fuel_sound k) a b p (sorted_names a b) c m

diff_names-complete :
    (rec : Fields → Fields → Text → List FieldChange) (a b : Fields) (p n : Text) (ns : List Text)
    (c : FieldChange)
    → Memᴰ n ns
    → Memᴰ c (diff_name rec (join_path p n) (find n a) (find n b))
    → Memᴰ c (diff_names rec a b p ns)
unfolding diff_names
diff_names-complete rec a b p n [] c h m = elim h [ ]
diff_names-complete rec a b p n (k ∷ ns) c (Memᴰ.head e) m = Memᴰ.append_left _ (rw e at m)
diff_names-complete rec a b p n (k ∷ ns) c (Memᴰ.tail t) m =
    Memᴰ.append_right _ (diff_names-complete rec a b p n ns c t m)

diff_fuel-complete :
    (k : ℕ) {a b : Fields} {p : Text} {c : FieldChange}
    → Differs a b p c
    → size a < k
    → Memᴰ c (diff_fuel k a b p)
unfolding diff_fuel diff_name
diff_fuel-complete zero d h = absurd (omega arith)
diff_fuel-complete (suc k) {a} {b} {p} {c} (adds n g e d same) h =
    diff_names-complete (diff_fuel k) a b p n _ c (mem_sorted_names_new n a b g d)
      (rw (e, d) (Memᴰ.head same))
diff_fuel-complete (suc k) {a} {b} {p} {c} (drops n f e d same) h =
    diff_names-complete (diff_fuel k) a b p n _ c (mem_sorted_names_old n a b f e)
      (rw (e, d) (Memᴰ.head same))
diff_fuel-complete (suc k) {a} {b} {p} {c} (retypes n f g e d ne same) h =
    diff_names-complete (diff_fuel k) a b p n _ c (mem_sorted_names_old n a b f e) (
      rw (e, d)
        (elim (Bool-cases (str_eq f.head.type g.head.type)) [
          | inl eq ↦ absurd (ne (eq_of_str_eq _ _ eq))
          | inr other ↦ rw other (Memᴰ.head same)
        ]))
diff_fuel-complete (suc k) {a} {b} {p} {c} (inside n f g e d same deep) h =
    diff_names-complete (diff_fuel k) a b p n _ c (mem_sorted_names_old n a b f e) (
      rw (e, d)
        (rw (same, str_eq_refl g.head.type)
          (diff_fuel-complete k deep (omega (arith, size-find n a f e)))))

-- `diffFields` reports exactly the changes there are: a name that only the new list has, one that
-- only the old list has, one with another type, and those inside fields that kept their type; each
-- at the path of the field, with the fields before and after. Where a list names a field twice, the
-- last one counts.
pub diff_fields_exact :
    (old_fields new_fields : Fields) (prefix : Text) (c : FieldChange)
    → Memᴰ c (diff_fields old_fields new_fields prefix) ↔ Differs old_fields new_fields prefix c
unfolding diff_fields
diff_fields_exact a b p c =
    (diff_fuel_sound (suc (size a)) a b p c, λ d. diff_fuel-complete (suc (size a)) d (omega arith))
