-- ===== src/Sync/Dates/Calendar.antt =====
-- The order of the dates of the calendar and of their day numbers.
use bqcubbit.Base.{
  ℕ, zero, suc, ◌+◌, ◌-◌, ◌*◌, ◌≤◌, ◌<◌, Bool-cases, some, ◌≡◌, inl, inr, subst, arith, refl, ltb,
  leb, if◌then◌else◌,
}
use bqcubbit.Sync.Dates.{is_leap, days_in, days_before, days_of_years, day_number}

-- The number of days of a year.
abbrev year_length : ℕ → ℕ
year_length y = if is_leap y then 366 else 365

days_of_years_step : (y : ℕ) → days_of_years y + year_length y ≤ days_of_years (suc y)
days_of_years_step y = ground arith

le_through : (a b c d : ℕ) → a ≤ b → b + c ≤ d → a ≤ d
le_through a b c d h k = omega (arith, h, k)

days_of_years-le : (y z : ℕ) → y < z → days_of_years y + year_length y ≤ days_of_years z
days_of_years-le y zero h = absurd (omega (arith, h))
days_of_years-le y (suc z) h = elim (Bool-cases (leb z y)) [
  | inl same ↦
      let yz : y ≡ z = ground arith in
      subst (λ x. days_of_years y + year_length y ≤ days_of_years (suc x)) yz (days_of_years_step y)
  | inr less ↦
      let rec : days_of_years y + year_length y ≤ days_of_years z =
        days_of_years-le y z (ground arith) in
      le_through _ _ _ _ rec (days_of_years_step z)
]

days_before-le : (y m n : ℕ) → m ≤ n → days_before y m ≤ days_before y n
unfolding days_before
days_before-le y m zero h = ground arith
days_before-le y m (suc n) h = elim (Bool-cases (leb m n)) [
  | inl less ↦
      let rec : days_before y m ≤ days_before y n = days_before-le y m n (ground arith) in
      omega (arith, rec)
  | inr same ↦ let e : m ≡ suc n = ground arith in rw e (omega arith)
]

days_before_year : (y : ℕ) → days_before y 12 ≡ year_length y
unfolding days_before
days_before_year y = ground arith

-- `p` is the number of months before.
pub day_number-some :
    (y m d t : ℕ)
    → day_number y m d ≡ some t
    → (p : ℕ) × (m ≡ suc p)
      × (suc p ≤ 12)
      × (1 ≤ d)
      × (d ≤ days_in y (suc p))
      × (t ≡ days_of_years y + days_before y p + (d - 1))
unfolding day_number
day_number-some y zero d t e = absurd (ground arith)
day_number-some y (suc p) d t e =
    let pred : suc p - 1 ≡ p = omega arith in
    let e' : day_number y (suc p) d ≡ some t = e in
    (p, refl, ground arith, ground arith, ground arith, shift (ground arith) pred)
  where
    shift :
        {q : ℕ}
        → t ≡ days_of_years y + days_before y q + (d - 1)
        → q ≡ p
        → t ≡ days_of_years y + days_before y p + (d - 1)
    shift {q} h same = subst (λ x. t ≡ days_of_years y + days_before y x + (d - 1)) same h

-- A day of a month ends before the months after it begin.
day_before :
    (y p n d : ℕ)
    → suc p ≤ n
    → 1 ≤ d
    → d ≤ days_in y (suc p)
    → days_before y p + (d - 1) < days_before y n
unfolding days_before
day_before y p n d k l r =
    let whole : days_before y p + days_in y (suc p) ≤ days_before y n =
      days_before-le y (suc p) n k in
    omega (arith, l, r, whole)

day_of_year :
    (y p d : ℕ)
    → suc p ≤ 12
    → 1 ≤ d
    → d ≤ days_in y (suc p)
    → days_before y p + (d - 1) < year_length y
day_of_year y p d k l r =
    subst (λ x. days_before y p + (d - 1) < x) (days_before_year y) (day_before y p 12 d k l r)

days_in_bound : (y m : ℕ) → days_in y m ≤ 31
days_in_bound y m = ground arith

-- Within a year.
in_year :
    (y p d q e : ℕ)
    → 1 ≤ d
    → d ≤ days_in y (suc p)
    → e ≤ days_in y (suc q)
    → 100 * suc p + d ≤ 100 * suc q + e
    → days_before y p + (d - 1) ≤ days_before y q + (e - 1)
in_year y p d q e d1 dm en le = elim (Bool-cases (ltb p q)) [
  | inl earlier ↦
      let before : days_before y p + (d - 1) < days_before y q =
        day_before y p q d (ground arith) d1 dm in
      omega (arith, before)
  | inr same ↦
      let pq : p ≡ q =
        ground (arith, days_in_bound y (suc p), days_in_bound y (suc q), le, d1, dm, en) in
      rw pq (let days : 100 * suc q + d ≤ 100 * suc q + e = rw pq at le in omega (arith, days))
]

-- Later dates have later day numbers.
pub day_number_le :
    (y m d t z n e u : ℕ)
    → day_number y m d ≡ some t
    → day_number z n e ≡ some u
    → 100 * (100 * y + m) + d ≤ 100 * (100 * z + n) + e
    → t ≤ u
day_number_le y m d t z n e u first second le =
    let (p, m_is, p12, d1, dm, t_is) = day_number-some y m d t first in
    let (q, n_is, q12, e1, en, u_is) = day_number-some z n e u second in
    let dm31 = days_in_bound y (suc p) in
    let en31 = days_in_bound z (suc q) in
    elim (Bool-cases (ltb y z)) [
      | inl year ↦
          let years : days_of_years y + year_length y ≤ days_of_years z =
            days_of_years-le y z (ground arith) in
          let inside : days_before y p + (d - 1) < year_length y = day_of_year y p d p12 d1 dm in
          omega (arith, years, inside, t_is, u_is)
      | inr same_year ↦
          let not_later : z ≤ y = ground arith in
          let yz : z ≡ y =
            omega (arith, not_later, le, p12, q12, m_is, n_is, d1, dm, en, dm31, en31) in
          let months : 100 * suc p + d ≤ 100 * suc q + e = omega (arith, le, yz, m_is, n_is) in
          let days : days_before y p + (d - 1) ≤ days_before y q + (e - 1) =
            in_year y p d q e d1 dm (subst (λ x. e ≤ days_in x (suc q)) yz en) months in
          let u_there : u ≡ days_of_years y + days_before y q + (e - 1) =
            subst (λ x. u ≡ days_of_years x + days_before x q + (e - 1)) yz u_is in
          omega (arith, days, t_is, u_there)
    ]
