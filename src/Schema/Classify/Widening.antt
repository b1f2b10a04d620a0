-- ===== src/Schema/Classify/Widening.antt =====
-- The table of `isTypeWidening` is the order of two chains of types.
use mathlib.Core.List.{Memᴰ}
use bqcubbit.Base.{
  All, Bool, Option-cases, Text, str_eq, eq_of_str_eq, str_eq_refl, Bool-cases, true, some, List,
  [], ◌∷◌, ◌≡◌, ◌↔◌, ◌⊎◌, inl, inr, refl, arith,
}
use bqcubbit.Schema.{Field}
use bqcubbit.Schema.Classify.{
  int64, float64, numeric, bignumeric, date, datetime, timestamp, widening, lookup_types,
  contains_type, or_no_types, is_type_widening,
}

-- `a` stands before `b` in the list.
abbrev pub Precedes : List Text → Text → Text → Type 0
Precedes [] a b = ⊥
Precedes (t ∷ ts) a b = ((a ≡ t) × Memᴰ b ts) ⊎ Precedes ts a b

abbrev pub number_types : List Text
number_types = int64 ∷ float64 ∷ numeric ∷ bignumeric ∷ []

abbrev pub time_types : List Text
time_types = date ∷ datetime ∷ timestamp ∷ []

-- Every value of the first type is one of the second, and the types differ.
abbrev pub Widens : Text → Text → Type 0
Widens a b = Precedes number_types a b ⊎ Precedes time_types a b

contains_type-sound : (t : Text) (ts : List Text) → contains_type t ts ≡ true → Memᴰ t ts
unfolding contains_type
contains_type-sound t [] h = cc
contains_type-sound t (v ∷ vs) h = elim (Bool-cases (str_eq t v)) [
  | inl same ↦ Memᴰ.head (eq_of_str_eq t v same)
  | inr other ↦ Memᴰ.tail (contains_type-sound t vs (rw other at h))
]

contains_type_complete : (t : Text) (ts : List Text) → Memᴰ t ts → contains_type t ts ≡ true
unfolding contains_type
contains_type_complete t [] h = elim h [ ]
contains_type_complete t (v ∷ vs) (Memᴰ.head e) = rw (e, str_eq_refl v)
contains_type_complete t (v ∷ vs) (Memᴰ.tail m) = ground (arith, contains_type_complete t vs m)

-- A row of the table lists only types that its key widens to.
abbrev IsSoundRow : Text × List Text → Type 0
IsSoundRow (k, ts) = (b : Text) → Memᴰ b ts → Widens k b

widening-IsSoundRow : All IsSoundRow widening
widening-IsSoundRow = (
  λ b m. inl (inl (refl, m)),
  (
    λ b m. inl (inr (inl (refl, m))),
    (
      λ b m. inl (inr (inr (inl (refl, m)))),
      (λ b m. inr (inl (refl, m)), (λ b m. inr (inr (inl (refl, m))), tt)),
    ),
  ),
)

lookup_types_sound :
    (t b : Text) (rows : List (Text × List Text)) (ts : List Text)
    → All IsSoundRow rows
    → lookup_types t rows ≡ some ts
    → Memᴰ b ts
    → Widens t b
unfolding lookup_types
lookup_types_sound t b [] ts w e m = cc
lookup_types_sound t b ((k, us) ∷ rows) ts w e m = elim (Bool-cases (str_eq k t)) [
  | inl same ↦
      let found : us ≡ ts = ground arith in rw (← eq_of_str_eq k t same) (w.0 b (rw found m))
  | inr other ↦ lookup_types_sound t b rows ts w.1 (rw other at e) m
]

-- Whether a type is in the row found for another.
widens_text : Text → Text → Bool
widens_text a b = or_no_types (lookup_types a widening) b

widens_text_sound : (a b : Text) → widens_text a b ≡ true → Widens a b
unfolding widens_text or_no_types
widens_text_sound a b h = elim (Option-cases (lookup_types a widening)) [
  | inl missing ↦ cc (rw missing at h)
  | inr (ts, found) ↦
      lookup_types_sound a b widening ts widening-IsSoundRow found
        (contains_type-sound b ts (rw found at h))
]

widens_text_complete : (a b : Text) → Widens a b → widens_text a b ≡ true
unfolding widens_text or_no_types lookup_types str_eq
widens_text_complete a b (inl (inl (e, m))) = rw e (contains_type_complete b _ m)
widens_text_complete a b (inl (inr (inl (e, m)))) = rw e (contains_type_complete b _ m)
widens_text_complete a b (inl (inr (inr (inl (e, m))))) = rw e (contains_type_complete b _ m)
widens_text_complete a b (inl (inr (inr (inr (inl (e, m)))))) = elim m [ ]
widens_text_complete a b (inl (inr (inr (inr (inr x))))) = elim x [ ]
widens_text_complete a b (inr (inl (e, m))) = rw e (contains_type_complete b _ m)
widens_text_complete a b (inr (inr (inl (e, m)))) = rw e (contains_type_complete b _ m)
widens_text_complete a b (inr (inr (inr (inl (e, m))))) = elim m [ ]
widens_text_complete a b (inr (inr (inr (inr x)))) = elim x [ ]

-- A change of type counts as a widening exactly when the old type stands before the new one in
-- INT64, FLOAT64, NUMERIC, BIGNUMERIC or in DATE, DATETIME, TIMESTAMP.
pub is_type_widening_exact :
    (before after : Field)
    → (is_type_widening before after ≡ true) ↔ Widens before.head.type after.head.type
unfolding is_type_widening str_eq widens_text
is_type_widening_exact before after = (
  widens_text_sound before.head.type after.head.type,
  widens_text_complete before.head.type after.head.type,
)
