-- ===== src/Sync/Dates/Order.antt =====
-- The order of texts is that of the dates that they stand for.
use bqcubbit.Base.{
  ℕ, ◌+◌, ◌*◌, ◌≤◌, ◌<◌, Text, Bool-cases, false, some, Option-cases, [], ◌∷◌, ◌≡◌, inl, inr, refl,
  sym, ap, ◌++◌, ◌∙◌, arith, ltb, str_lt, length,
}
use bqcubbit.Sync.Dates.Calendar.{day_number_le}
use bqcubbit.Sync.Dates.{digit, digits, day_number, parse_date}

digit_bound : (c d : ℕ) → digit c ≡ some d → (d + 48 ≡ c) × (d ≤ 9)
digit_bound c d e = ground arith

digits_none : (n v : ℕ) → digits n [] ≡ some v → n ≡ v
unfolding digits
digits_none n v e = ground arith

digits_step :
    (c : ℕ) (cs : Text) (n v : ℕ)
    → digits n (c ∷ cs) ≡ some v
    → (d : ℕ) × (d + 48 ≡ c) × (d ≤ 9) × (digits (10 * n + d) cs ≡ some v)
unfolding digits
digits_step c cs n v e = elim (Option-cases (digit c)) [
  | inl no_digit ↦ cc (rw (no_digit, digits) at e)
  | inr (d, ok_digit) ↦
      let (same, small) = digit_bound c d ok_digit in (d, same, small, rw (ok_digit, digits) at e)
]

-- A later number stays later when as many digits follow.
digits_lt :
    (a b : Text) (n m v w : ℕ)
    → n < m
    → length a ≡ length b
    → digits n a ≡ some v
    → digits m b ≡ some w
    → v < w
digits_lt [] [] n m v w h l e f = omega (arith, h, digits_none n v e, digits_none m w f)
digits_lt [] (y ∷ ys) n m v w h l e f = absurd (omega (arith, l))
digits_lt (x ∷ xs) [] n m v w h l e f = absurd (omega (arith, l))
digits_lt (x ∷ xs) (y ∷ ys) n m v w h l e f =
    let (c, same, small, rest) = digits_step x xs n v e in
    let (d, same', small', rest') = digits_step y ys m w f in
    digits_lt xs ys (10 * n + c) (10 * m + d) v w (omega (arith, h, small, small'))
      (omega (arith, l)) rest rest'

-- Numbers of as many digits are ordered like their texts.
digits_le :
    (a b : Text) (n v w : ℕ)
    → length a ≡ length b
    → str_lt b a ≡ false
    → digits n a ≡ some v
    → digits n b ≡ some w
    → v ≤ w
unfolding str_lt
digits_le [] [] n v w l h e f = omega (arith, digits_none n v e, digits_none n w f)
digits_le [] (y ∷ ys) n v w l h e f = absurd (omega (arith, l))
digits_le (x ∷ xs) [] n v w l h e f = absurd (omega (arith, l))
digits_le (x ∷ xs) (y ∷ ys) n v w l h e f =
    let (c, same, small, rest) = digits_step x xs n v e in
    let (d, same', small', rest') = digits_step y ys n w f in
    elim (Bool-cases (ltb x y)) [
      | inl less ↦
          let r : v < w =
            digits_lt xs ys (10 * n + c) (10 * n + d) v w (ground arith) (omega (arith, l)) rest
              rest' in
          omega (arith, r)
      | inr not_less ↦
          let xy : x ≡ y = ground arith in
          digits_le xs ys (10 * n + c) v w (omega (arith, l)) (ground arith) rest (ground arith)
    ]

digits_append : (a b : Text) (n v : ℕ) → digits n a ≡ some v → digits n (a ++ b) ≡ digits v b
unfolding digits
digits_append [] b n v e = ap (λ x. digits x b) (digits_none n v e)
digits_append (c ∷ cs) b n v e = elim (Option-cases (digit c)) [
  | inl no_digit ↦ cc (rw (no_digit, digits) at e)
  | inr (d, is_digit) ↦
      rw (is_digit, digits) (digits_append cs b (10 * n + d) v (rw (is_digit, digits) at e))
]

two_digits :
    (g h n k : ℕ) → digits 0 (g ∷ h ∷ []) ≡ some k → digits n (g ∷ h ∷ []) ≡ some (100 * n + k)
unfolding digits
two_digits g h n k e = ground arith

-- The number of a date text, and its parts.
record Parts (s : Text) (t : ℕ) : Type 0 where
  year : ℕ
  month : ℕ
  day : ℕ
  number : ℕ
  eight : length s ≡ 8
  reads : digits 0 s ≡ some number
  composed : number ≡ 100 * (100 * year + month) + day
  dated : day_number year month day ≡ some t

parse_date-Parts : (s : Text) (t : ℕ) → parse_date s ≡ some t → Parts s t
unfolding parse_date
parse_date-Parts [] t p = cc
parse_date-Parts (a ∷ []) t p = cc
parse_date-Parts (a ∷ b ∷ []) t p = cc
parse_date-Parts (a ∷ b ∷ c ∷ []) t p = cc
parse_date-Parts (a ∷ b ∷ c ∷ d ∷ []) t p = cc
parse_date-Parts (a ∷ b ∷ c ∷ d ∷ e ∷ []) t p = cc
parse_date-Parts (a ∷ b ∷ c ∷ d ∷ e ∷ f ∷ []) t p = cc
parse_date-Parts (a ∷ b ∷ c ∷ d ∷ e ∷ f ∷ g ∷ []) t p = cc
parse_date-Parts (a ∷ b ∷ c ∷ d ∷ e ∷ f ∷ g ∷ h ∷ i ∷ s) t p = cc
parse_date-Parts (a ∷ b ∷ c ∷ d ∷ e ∷ f ∷ g ∷ h ∷ []) t p =
    elim (Option-cases (digits 0 (a ∷ b ∷ c ∷ d ∷ []))) [
      | inl no_year ↦ cc (rw (no_year, parse_date) at p)
      | inr (y, y_is) ↦ elim (Option-cases (digits 0 (e ∷ f ∷ []))) [
        | inl no_month ↦ cc (rw (no_month, parse_date) at (rw (y_is, parse_date) at p))
        | inr (m, m_is) ↦ elim (Option-cases (digits 0 (g ∷ h ∷ []))) [
          | inl no_day ↦
              cc
                (rw (no_day, parse_date) at (rw (m_is, parse_date) at (rw (y_is, parse_date) at p)))
          | inr (k, k_is) ↦ record {
            year = y;
            month = m;
            day = k;
            number = 100 * (100 * y + m) + k;
            eight = refl;
            reads =
                digits_append (a ∷ b ∷ c ∷ d ∷ []) (e ∷ f ∷ g ∷ h ∷ []) 0 y y_is
                ∙ (digits_append (e ∷ f ∷ []) (g ∷ h ∷ []) y (100 * y + m) (two_digits e f y m m_is)
                    ∙ two_digits g h (100 * y + m) k k_is);
            composed = refl;
            dated =
                rw (k_is, parse_date) at (rw (m_is, parse_date) at (rw (y_is, parse_date) at p));
          }
        ]
      ]
    ]

-- The order of the texts of two dates is that of the dates.
pub parse_date_le :
    (a b : Text) (t u : ℕ)
    → parse_date a ≡ some t
    → parse_date b ≡ some u
    → str_lt b a ≡ false
    → t ≤ u
parse_date_le a b t u ea eb h =
    let x = parse_date-Parts a t ea in
    let y = parse_date-Parts b u eb in
    let le : x.number ≤ y.number =
      digits_le a b 0 x.number y.number (x.eight ∙ sym y.eight) h x.reads y.reads in
    day_number_le x.year x.month x.day t y.year y.month y.day u x.dated y.dated
      (omega (arith, le, x.composed, y.composed))
