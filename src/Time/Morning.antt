-- ===== src/Time/Morning.antt =====
-- `time_str_get_morning_time` against the calendar.
use fast.Prelude.{
  all_below, all_below-lt, arith, if◌then◌else◌, ltb, refl, true, ℕ, ◌+◌, ◌<◌, ◌==◌, ◌||◌, ◌≡◌, ◌≢◌,
  ◌≤◌, ◌⊎◌,
}
use fast.Time.{TimeStr, days_in_months, is_leap, time_str_get_morning_time}

abbrev pub month_length : ℕ → ℕ → ℕ
month_length year month =
    if month == 2
    then (if is_leap year then 29 else 28)
    else if (month == 4) || ((month == 6) || ((month == 9) || (month == 11)))
    then 30
    else 31

-- A date of the calendar.
pub record IsDate (t : TimeStr) : Type 0 where
  pub month_from : 1 ≤ t.month
  pub month_to : t.month ≤ 12
  pub day_from : 1 ≤ t.day
  pub day_to : t.day ≤ month_length t.year t.month

pub next_day : TimeStr → TimeStr
next_day t =
    if ltb t.day (month_length t.year t.month)
    then record t { day = t.day + 1 }
    else if t.month == 12
    then record t { year = t.year + 1; month = 1; day = 1 }
    else record t { month = t.month + 1; day = 1 }

abbrev pub at_morning : TimeStr → TimeStr
at_morning t = record t { hour = 2; minute = 0; second = 0; microsecond = 0 }

-- The table is that of a year without a leap day.
table :
    all_below 13 (λ m. (m == 0) || (days_in_months m == (if m == 2 then 28 else month_length 1 m)))
    ≡ true
unfolding all_below days_in_months
table = refl

days_in_months_lem :
    (m : ℕ) → 1 ≤ m → m ≤ 12 → days_in_months m ≡ (if m == 2 then 28 else month_length 1 m)
days_in_months_lem m h k = ground (arith, all_below-lt _ 13 m (omega arith) table)

-- The morning after a time from 13:00 on is on the next day of the calendar, leap days and ends of
-- years included, unless the day is 30 November; the morning that is given for a time before 13:00,
-- those from 12:00 on included, is on the same day.
pub morning-next_day :
    (t : TimeStr)
    → IsDate t
    → ((t.month ≢ 11) ⊎ (t.day < 30)) ⊎ (t.hour ≤ 12)
    → time_str_get_morning_time t ≡ at_morning (if ltb 12 t.hour then next_day t else t)
unfolding time_str_get_morning_time next_day
morning-next_day t d h = ground (arith, days_in_months_lem t.month)

-- In every year the morning after 30 November is given as 1 January of the next year, not as
-- 1 December.
pub morning-november :
    (t : TimeStr)
    → t.month ≡ 11
    → t.day ≡ 30
    → 12 < t.hour
    → (time_str_get_morning_time t
        ≡ at_morning (record t { year = t.year + 1; month = 1; day = 1 }))
      × (next_day t ≡ record t { month = 12; day = 1 })
unfolding time_str_get_morning_time next_day
morning-november t m d h = ground (arith, days_in_months_lem t.month)
