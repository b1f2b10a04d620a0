-- ===== src/Schema/Classify.antt =====
-- internal/schema/schema.go, `isTypeWidening` and `classifyChanges`.
pub mod Widening
pub mod Verdict
use bqcubbit.Base.{
  Text, str_eq, codes, if◌then◌else◌, Bool, true, false, not, ◌&&◌, Option, none, some, List, [],
  ◌∷◌,
}
use bqcubbit.Schema.{Field}
use bqcubbit.Schema.Diff.{FieldChangeType, field_add, field_drop, field_type_change, FieldChange}

-- `ChangeType`; the default case of `String`, "UNKNOWN", is for no value of it.
pub data ChangeType : Type 0 where
  unchanged additive breaking : ChangeType

unfoldable pub change_type_string : ChangeType → Text
change_type_string unchanged = codes "NONE"
change_type_string additive = codes "ADDITIVE"
change_type_string breaking = codes "BREAKING"

abbrev pub int64 : Text
int64 = codes "INT64"

abbrev pub float64 : Text
float64 = codes "FLOAT64"

abbrev pub numeric : Text
numeric = codes "NUMERIC"

abbrev pub bignumeric : Text
bignumeric = codes "BIGNUMERIC"

abbrev pub date : Text
date = codes "DATE"

abbrev pub datetime : Text
datetime = codes "DATETIME"

abbrev pub timestamp : Text
timestamp = codes "TIMESTAMP"

abbrev pub nullable : Text
nullable = codes "NULLABLE"

abbrev pub repeated : Text
repeated = codes "REPEATED"

-- The map `widening`.
abbrev pub widening : List (Text × List Text)
widening =
    (int64, float64 ∷ numeric ∷ bignumeric ∷ [])
    ∷ (float64, numeric ∷ bignumeric ∷ [])
    ∷ (numeric, bignumeric ∷ [])
    ∷ (date, datetime ∷ timestamp ∷ [])
    ∷ (datetime, timestamp ∷ [])
    ∷ []

unfoldable pub lookup_types : Text → List (Text × List Text) → Option (List Text)
lookup_types t [] = none
lookup_types t ((k, ts) ∷ rest) = if str_eq k t then some ts else lookup_types t rest

-- `for _, v := range valid { if after.Type == v { return true } }; return false`
unfoldable pub contains_type : Text → List Text → Bool
contains_type t [] = false
contains_type t (v ∷ vs) = if str_eq t v then true else contains_type t vs

or_no_types : Option (List Text) → Text → Bool
unfolding contains_type
or_no_types none t = false
or_no_types (some valid) t = contains_type t valid

unfoldable pub is_type_widening : Field → Field → Bool
unfolding or_no_types lookup_types
is_type_widening before after = or_no_types (lookup_types before.head.type widening) after.head.type

or_nullable : Text → Text
or_nullable mode = if str_eq mode [] then nullable else mode

-- The `switch` of the loop: does this change make the whole diff breaking?
unfoldable pub breaks : FieldChangeType → Option Field → Option Field → Bool
unfolding or_nullable
breaks field_drop before after = true
breaks field_type_change none after = true
breaks field_type_change (some f) none = true
breaks field_type_change (some f) (some g) = not (is_type_widening f g)
breaks field_add before none = true
breaks field_add before (some g) =
    let mode = or_nullable g.head.mode in not (str_eq mode nullable) && not (str_eq mode repeated)

classify_from : List FieldChange → ChangeType
unfolding breaks
classify_from [] = additive
classify_from (c ∷ cs) = if breaks c.type c.before c.after then breaking else classify_from cs

unfoldable pub classify_changes : List FieldChange → ChangeType
unfolding classify_from
classify_changes [] = unchanged
classify_changes (c ∷ cs) = classify_from (c ∷ cs)
