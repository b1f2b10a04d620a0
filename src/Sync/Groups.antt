-- ===== src/Sync/Groups.antt =====
-- internal/sync/sync.go, `groupByTable`. The map is a list of keys with their values, without a key
-- twice; the order of Go's iteration is left open by the theorems.
use bqcubbit.Base.{
  Text, codes, str_eq, str_eq_refl, eq_of_str_eq, Bool, Bool-cases, true, false, List, [], ◌∷◌,
  ◌++◌, ◌≡◌, refl, sym, ap, ◌∙◌, inl, inr, arith, keep, if◌then◌else◌,
}
use mathlib.Core.List.{append-nil, append_assoc}
use bqcubbit.Sync.{PartitionInfo}

abbrev pub table_key : PartitionInfo → Text
table_key p = p.table_dataset ++ (codes "." ++ p.table_name)

-- groups[key] = append(groups[key], p)
unfoldable pub add_to_group :
    Text → PartitionInfo → List (Text × List PartitionInfo) → List (Text × List PartitionInfo)
add_to_group key p [] = (key, p ∷ []) ∷ []
add_to_group key p ((k, ps) ∷ groups) =
    let rest = add_to_group key p groups in
    if str_eq k key then (k, ps ++ p ∷ []) ∷ groups else (k, ps) ∷ rest

unfoldable pub group_from :
    List (Text × List PartitionInfo) → List PartitionInfo → List (Text × List PartitionInfo)
unfolding add_to_group
group_from groups [] = groups
group_from groups (p ∷ ps) = group_from (add_to_group (table_key p) p groups) ps

unfoldable pub group_by_table : List PartitionInfo → List (Text × List PartitionInfo)
unfolding group_from
group_by_table ps = group_from [] ps

-- `groups[key]`, nil if the key is missing.
pub group_of : Text → List (Text × List PartitionInfo) → List PartitionInfo
group_of key [] = []
group_of key ((k, ps) ∷ groups) = if str_eq k key then ps else group_of key groups

group_of-add :
    (key k : Text) (p : PartitionInfo) (groups : List (Text × List PartitionInfo))
    → group_of key (add_to_group k p groups)
      ≡ (if str_eq k key then group_of key groups ++ p ∷ [] else group_of key groups)
unfolding group_of add_to_group
group_of-add key k p [] = ground arith
group_of-add key k p ((j, ps) ∷ groups) = elim (Bool-cases (str_eq j k)) [
  | inl same ↦
      let e : j ≡ k = eq_of_str_eq j k same in
      rw (same, ap (λ (x : Text). str_eq x key) e) (ground arith)
  | inr other ↦
      rw (other, group_of-add key k p groups) (apart other (str_eq j key) (str_eq k key) refl refl)
]
  where
    apart :
        str_eq j k ≡ false
        → (b c : Bool) → str_eq j key ≡ b
        → str_eq k key ≡ c
        → (if b then ps else (if c then group_of key groups ++ p ∷ [] else group_of key groups)) ≡ (
            if c
            then (if b then ps else group_of key groups) ++ p ∷ []
            else (if b then ps else group_of key groups))
    apart other true true e f =
        let a : j ≡ k = eq_of_str_eq j key e ∙ sym (eq_of_str_eq k key f) in
        let h : str_eq j k ≡ true = ap (str_eq j) (sym a) ∙ str_eq_refl j in absurd (cc)
    apart other true false e f = refl
    apart other false true e f = refl
    apart other false false e f = refl

group_of-from :
    (key : Text) (groups : List (Text × List PartitionInfo)) (ps : List PartitionInfo)
    → group_of key (group_from groups ps)
      ≡ group_of key groups ++ keep (λ p. str_eq (table_key p) key) ps
unfolding group_from
group_of-from key groups [] = sym (append-nil (group_of key groups))
group_of-from key groups (p ∷ ps) =
    group_of-from key (add_to_group (table_key p) p groups) ps
    ∙ ap (λ (xs : List PartitionInfo). xs ++ keep (λ q. str_eq (table_key q) key) ps)
        (group_of-add key (table_key p) p groups)
    ∙ step (str_eq (table_key p) key)
  where
    step :
        (b : Bool)
        → (if b then group_of key groups ++ p ∷ [] else group_of key groups)
            ++ keep (λ q. str_eq (table_key q) key) ps
          ≡ group_of key groups
            ++ (if b
                then p ∷ keep (λ q. str_eq (table_key q) key) ps
                else keep (λ q. str_eq (table_key q) key) ps)
    step true =
        append_assoc (group_of key groups) (p ∷ []) (keep (λ q. str_eq (table_key q) key) ps)
    step false = refl

-- `groupByTable` files each partition under its dataset and table, in the order of the input, and
-- nothing else.
pub group_by_table_exact :
    (key : Text) (ps : List PartitionInfo)
    → group_of key (group_by_table ps) ≡ keep (λ p. str_eq (table_key p) key) ps
unfolding group_by_table group_of
group_by_table_exact key ps = group_of-from key [] ps
