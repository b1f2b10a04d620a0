-- ===== src/Sync/Dates.antt =====
-- time.Parse("20060102", s) as the number of days since 0000-01-01, and IsZero.
pub mod Calendar
pub mod Order
use bqcubbit.Base.{
  ℕ, zero, suc, ◌+◌, ◌-◌, ◌*◌, ◌/◌, ◌%◌, Text, Bool, not, ◌&&◌, ◌||◌, Option, none, some, [], ◌∷◌,
  leb, ◌==◌, if◌then◌else◌,
}

abbrev pub digit : ℕ → Option ℕ
digit c = if leb 48 c && leb c 57 then some (c - 48) else none

-- The number that digits stand for, after the number `n`.
unfoldable pub digits : ℕ → Text → Option ℕ
digits n [] = some n
digits n (c ∷ cs) = elim (digit c) [ none ↦ none | some d ↦ digits (10 * n + d) cs ]

abbrev pub is_leap : ℕ → Bool
is_leap y = (y % 4 == 0) && (not (y % 100 == 0) || (y % 400 == 0))

-- The number of days of a month.
abbrev pub days_in : ℕ → ℕ → ℕ
days_in y m =
    if m == 2
    then (if is_leap y then 29 else 28)
    else if (m == 4) || ((m == 6) || ((m == 9) || (m == 11)))
    then 30
    else 31

-- The days of the year before its month `m + 1`.
unfoldable pub days_before : ℕ → ℕ → ℕ
days_before y zero = 0
days_before y (suc m) = days_before y m + days_in y (suc m)

-- The days before a year.
abbrev pub days_of_years : ℕ → ℕ
days_of_years y = 365 * y + ((y + 3) / 4 + (y + 399) / 400 - (y + 99) / 100)

unfoldable pub day_number : ℕ → ℕ → ℕ → Option ℕ
unfolding days_before
day_number y m d =
    if (leb 1 m && leb m 12) && (leb 1 d && leb d (days_in y m))
    then some (days_of_years y + days_before y (m - 1) + (d - 1))
    else none

unfoldable pub parse_date : Text → Option ℕ
unfolding digits day_number
parse_date (a ∷ b ∷ c ∷ d ∷ e ∷ f ∷ g ∷ h ∷ []) = elim (digits 0 (a ∷ b ∷ c ∷ d ∷ [])) [
  | none ↦ none
  | some y ↦ elim (digits 0 (e ∷ f ∷ [])) [
    | none ↦ none
    | some m ↦ elim (digits 0 (g ∷ h ∷ [])) [ none ↦ none | some k ↦ day_number y m k ]
  ]
]
parse_date _ = none

-- 0001-01-01
abbrev pub is_zero_date : ℕ → Bool
is_zero_date n = n == 366
