-- ===== src/Time/Julian.antt =====
-- time_str.c: the calendar of Julian dates, on whole days. In the doubles of the code these are exact
-- and a cast to an int cuts, so that they are divisions of whole numbers; what the time of the day
-- adds, and the fraction that is read back, is a parameter.
pub mod Month
pub mod RoundTrip
use fast.Prelude.{if◌then◌else◌, leb, ℕ, ◌*◌, ◌+◌, ◌-◌, ◌/◌}
use fast.Time.{TimeStr}

-- `(int)(30.6001*(month + 1))`: for a month of 3 to 14 the product is not near a whole number.
pub month_days : ℕ → ℕ
month_days month = 306001 * (month + 1) / 10000

-- January and February belong to the year before; b is that of the Julian calendar up to 4 October
-- 1582. These are the whole days of `a + b + (int)(...) + day`, without the 679004 that is taken
-- away. The year is 9 or more, so that nothing is below 0.
unfoldable pub whole_days : TimeStr → ℕ
unfolding month_days
whole_days t =
    let a = 10000 * t.year + 100 * t.month + t.day in
    let month = if leb t.month 2 then t.month + 12 else t.month in
    let year = if leb t.month 2 then t.year - 1 else t.year in
    if leb a 15821004
    then 365 * year + (year + 4716) / 4 + month_days month + t.day - 2 - 1179
    else 365 * year + (year / 400 + year / 4 - year / 100) + month_days month + t.day

-- `n`, `m`, `k` and the first `month` of `time_str_from_jd`, for the number of the day `jd`
pub jd_n : ℕ → ℕ
jd_n jd = 4 * (jd + 68569) / 146097

pub jd_rest : ℕ → ℕ
unfolding jd_n
jd_rest jd = jd + 68569 - (146097 * jd_n jd + 3) / 4

pub jd_m : ℕ → ℕ
unfolding jd_rest
jd_m jd = 4000 * (jd_rest jd + 1) / 1461001

pub jd_k : ℕ → ℕ
unfolding jd_rest jd_m
jd_k jd = jd_rest jd - 1461 * jd_m jd / 4 + 31

pub jd_month : ℕ → ℕ
unfolding jd_k
jd_month jd = 80 * jd_k jd / 2447

-- The year is after 0, so that n is 49 or more.
pub jd_date : ℕ → ℕ × ℕ × ℕ
unfolding jd_n jd_m jd_k jd_month
jd_date jd =
    let month = jd_month jd in
    let k = month / 11 in
    (100 * (jd_n jd - 49) + jd_m jd + k, month + 2 - 12 * k, jd_k jd - 2447 * month / 80)

module _ {R : Type 0} (of_days : ℕ → TimeStr → R)
    (days_of hour_of minute_of second_of microsecond_of : R → ℕ) where
  -- `of_days n t` is n - 679004 + 2400000.5 with the part of the day that has passed.
  unfoldable pub time_str_get_jd : TimeStr → R
  unfolding whole_days
  time_str_get_jd t = of_days (whole_days t) t

  -- `days_of tjd` is `(long int)(tjd + 0.5)`, and the others are the `floorl` of the code.
  pub time_str_from_jd : R → TimeStr
  unfolding jd_date
  time_str_from_jd tjd =
      let (year, month, day) = jd_date (days_of tjd) in
      record {
        year = year;
        month = month;
        day = day;
        hour = hour_of tjd;
        minute = minute_of tjd;
        second = second_of tjd;
        microsecond = microsecond_of tjd;
      }
