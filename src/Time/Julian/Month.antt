-- ===== src/Time/Julian/Month.antt =====
-- Within a month the day that `time_str_from_jd` finds counts on with the number of the day.
use fast.Prelude.{
  Bool, all_below, all_below-lt, arith, refl, sym, true, ℕ, ◌&&◌, ◌+◌, ◌<◌, ◌==◌, ◌≡◌, ◌≤◌,
}
use fast.Time.{TimeStr}
use fast.Time.Julian.{jd_date, jd_k, jd_m, jd_month, jd_n, jd_rest, whole_days}
use fast.Time.Morning.{month_length}

abbrev pub date : ℕ → ℕ → ℕ → TimeStr
date year month day = record {
  year = year;
  month = month;
  day = day;
  hour = 0;
  minute = 0;
  second = 0;
  microsecond = 0;
}

-- the number of a day, as `time_str_from_jd` reads it
abbrev pub number : ℕ → ℕ → ℕ → ℕ
number year month day = whole_days (date year month day) + 1720997

month_check : ℕ → ℕ → Bool
month_check y m =
    let first = number y m 1 in
    let last = number y m (month_length y m) in
    (jd_n first == jd_n last)
    && (jd_m first == jd_m last)
    && (jd_month first == jd_month last)
    && ((jd_date first).0 == y)
    && ((jd_date first).1 == m)
    && ((jd_date first).2 == 1)

all_months : all_below 400 (λ r. all_below 12 (λ m. month_check (1600 + r) (m + 1))) ≡ true
unfolding month_check all_below jd_date whole_days
all_months = refl

checked : (r m : ℕ) → r < 400 → m < 12 → month_check (1600 + r) (m + 1) ≡ true
checked r m h k =
    all_below-lt (λ m. month_check (1600 + r) (m + 1)) 12 m k
      (all_below-lt (λ r. all_below 12 (λ m. month_check (1600 + r) (m + 1))) 400 r h all_months)

-- What the check of a month says of its first and its last day.
pub month-Checked :
    (r m : ℕ)
    → r < 400
    → m < 12
    → let y = 1600 + r in
      let first = number y (m + 1) 1 in
      let last = number y (m + 1) (month_length y (m + 1)) in
      ((jd_n first ≡ jd_n last) × (jd_m first ≡ jd_m last) × (jd_month first ≡ jd_month last))
      × (((jd_date first).0 ≡ y) × ((jd_date first).1 ≡ m + 1) × ((jd_date first).2 ≡ 1))
unfolding month_check
month-Checked r m h k =
    let c = checked r m h k in
    (
      (ground (arith, c), ground (arith, c), ground (arith, c)),
      (ground (arith, c), ground (arith, c), ground (arith, c)),
    )

-- Two days with the same n, m and month, and a day between them.
module _ (jd last i : ℕ) (inside : i ≤ last) where
  same_n : jd_n jd ≡ jd_n (jd + last) → jd_n (jd + i) ≡ jd_n jd
  unfolding jd_n
  same_n h = omega (arith, h)

  next_rest : jd_n (jd + i) ≡ jd_n jd → jd_rest (jd + i) ≡ jd_rest jd + i
  unfolding jd_n jd_rest
  next_rest h = omega (arith, h)

  same_m :
      jd_rest (jd + i) ≡ jd_rest jd + i
      → jd_rest (jd + last) ≡ jd_rest jd + last
      → jd_m jd ≡ jd_m (jd + last)
      → jd_m (jd + i) ≡ jd_m jd
  unfolding jd_m
  same_m h k l = omega (arith, h, k, l)

  next_k : jd_rest (jd + i) ≡ jd_rest jd + i → jd_m (jd + i) ≡ jd_m jd → jd_k (jd + i) ≡ jd_k jd + i
  unfolding jd_k jd_m
  next_k h k = omega (arith, h, k)

  same_month :
      jd_k (jd + i) ≡ jd_k jd + i
      → jd_k (jd + last) ≡ jd_k jd + last
      → jd_month jd ≡ jd_month (jd + last)
      → jd_month (jd + i) ≡ jd_month jd
  unfolding jd_month
  same_month h k l = omega (arith, h, k, l)

pub same_triple :
    {a b c a' b' c' : ℕ} → a ≡ a' → b ≡ b' → c ≡ c' → Path (ℕ × ℕ × ℕ) (a, b, c) (a', b', c')
same_triple p q r = λ i. (p i, q i, r i)

-- The date of the i-th day after the first of a month.
pub jd_date-inside :
    (jd last i y m : ℕ)
    → i ≤ last
    → (jd_n jd ≡ jd_n (jd + last))
      × (jd_m jd ≡ jd_m (jd + last))
      × (jd_month jd ≡ jd_month (jd + last))
    → ((jd_date jd).0 ≡ y) × ((jd_date jd).1 ≡ m) × ((jd_date jd).2 ≡ 1)
    → jd_date (jd + i) ≡ (y, m, 1 + i)
unfolding jd_date
jd_date-inside jd last i y m inside (n1, m1, k1) (e, f, g) =
    let n = same_n jd last i inside n1 in
    let r = next_rest jd last i inside n in
    let r' = next_rest jd last last (omega arith) (sym n1) in
    let m' = same_m jd last i inside r r' m1 in
    let k = next_k jd last i inside r m' in
    let k' = next_k jd last last (omega arith) r' (sym m1) in
    let month = same_month jd last i inside k k' k1 in
    same_triple (omega (arith, n, m', month, e)) (omega (arith, month, f))
      (omega (arith, month, k, g))
