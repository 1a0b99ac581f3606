-- ===== src/Time/Tests.antt =====
-- Times of observations, and the theorems at them.

use fast.Prelude.{
  Bool, Bytes, List, [], arith, codes, false, if◌then◌else◌, inl, ltb, refl, some, true, ℕ, ◌%◌,
  ◌*◌, ◌+◌, ◌-◌, ◌/◌, ◌<◌, ◌==◌, ◌^◌, ◌∷◌, ◌≡◌,
}
use fast.Time.Clock.Increment.{time_increment-Later}
use fast.Time.Clock.{Tm, int_of, of_tm, time_from_unix, time_increment, time_unix, tm_of}
use fast.Time.Parse.RoundTrip.{from_date_time-get_date_time, spaced_date, spaced_time}
use fast.Time.Parse.{day_month_year, separated, time_str_from_date_time, time_str_set_date, u32_of}
use fast.Prelude.Int.{pos, ℤ, ◌+ℤ◌}
use fast.Prelude.Format.{format_padded}
use fast.Time.{
  TimeStr, days_in_months, time_str_from_uuid, time_str_get_morning_time, time_str_get_uuid,
}
use fast.Time.Text.{time_str_get_date_time}
use fast.Time.Uuid.{HasDigits, from_uuid-get_uuid}
use fast.Time.Morning.{IsDate, at_morning, morning-next_day, next_day}
use fast.Time.Julian.{time_str_from_jd, time_str_get_jd, whole_days}

abbrev leap_evening : TimeStr
leap_evening = record {
  year = 2016;
  month = 2;
  day = 28;
  hour = 21;
  minute = 5;
  second = 59;
  microsecond = 123_456;
}

abbrev november_evening : TimeStr
november_evening = record leap_evening { month = 11; day = 30 }

date_time_text : time_str_get_date_time leap_evening ≡ codes "2016.02.28 21:05:59.123"
unfolding time_str_get_date_time format_padded
date_time_text = refl

uuid_value : time_str_get_uuid leap_evening ≡ 20160228210559123
unfolding time_str_get_uuid
uuid_value = refl

leap_evening-HasDigits : HasDigits leap_evening
leap_evening-HasDigits = omega arith

from_uuid-get_uuid_example :
    time_str_from_uuid (time_str_get_uuid leap_evening)
    ≡ record leap_evening { microsecond = 123_000 }
from_uuid-get_uuid_example = from_uuid-get_uuid leap_evening leap_evening-HasDigits

leap_evening-IsDate : IsDate leap_evening
leap_evening-IsDate = omega arith

morning-next_day_example :
    time_str_get_morning_time leap_evening
    ≡ at_morning (if ltb 12 21 then next_day leap_evening else leap_evening)
morning-next_day_example =
    morning-next_day leap_evening leap_evening-IsDate (inl (inl (omega arith)))

morning_leap :
    time_str_get_morning_time leap_evening ≡ at_morning (record leap_evening { day = 29 })
unfolding time_str_get_morning_time days_in_months
morning_leap = refl

-- Julian dates as whole numbers of microseconds, from noon of the first day less half a day
abbrev a_day : ℕ
a_day = 86_400_000_000

abbrev of_days : ℕ → TimeStr → ℕ
of_days n t =
    (n + 1720997) * a_day + ((t.hour * 60 + t.minute) * 60 + t.second) * 1_000_000 + t.microsecond

abbrev days_of : ℕ → ℕ
days_of r = r / a_day

abbrev read_back : TimeStr
read_back =
    time_str_from_jd of_days days_of (λ r. r / 3_600_000_000 % 24) (λ r. r / 60_000_000 % 60)
      (λ r. r / 1_000_000 % 60) (λ r. r % 1_000_000)
      (time_str_get_jd of_days days_of (λ r. r / 3_600_000_000 % 24) (λ r. r / 60_000_000 % 60)
        (λ r. r / 1_000_000 % 60) (λ r. r % 1_000_000) leap_evening)

whole_days-millennium :
    whole_days (record leap_evening { year = 2000; month = 1; day = 1 }) + 1720997 ≡ 2451545
unfolding whole_days
whole_days-millennium = refl

-- the numbers of a text between its spaces
abbrev scan_from : ℕ → Bool → Bytes → List ℤ
scan_from n started [] = if started then pos n ∷ [] else []
scan_from n started (c ∷ s) =
    let on = scan_from (n * 10 + (c - 48)) true s in
    let next = scan_from 0 false s in
    if c == 32 then (if started then pos n ∷ next else next) else on

abbrev scan : Bytes → List ℤ
scan s = scan_from 0 false s

from_date_time-get_date_time_example :
    time_str_from_date_time scan (some (time_str_get_date_time leap_evening))
    ≡ some (record leap_evening { microsecond = 123_000 })
unfolding spaced_date spaced_time format_padded
from_date_time-get_date_time_example =
    from_date_time-get_date_time scan leap_evening leap_evening-HasDigits (omega arith) refl

date_first :
    time_str_set_date scan leap_evening (codes "24/12/2015")
    ≡ some (record leap_evening { year = 2015; month = 12; day = 24 })
unfolding time_str_set_date day_month_year separated u32_of
date_first = refl

-- a clock whose struct tm holds the seconds since the Epoch
abbrev mktime : Tm → ℤ
mktime tm = tm.tm_sec

abbrev localtime : ℤ → Tm
localtime t = record {
  tm_sec = t;
  tm_min = pos 0;
  tm_hour = pos 0;
  tm_mday = pos 1;
  tm_mon = pos 0;
  tm_year = pos 70;
}

clock-inverse : (t : ℕ) → t < 2 ^ 31 → time_unix mktime (time_from_unix localtime (pos t)) ≡ pos t
unfolding time_unix time_from_unix tm_of of_tm int_of u32_of
clock-inverse t h = ground (arith, h)

-- ten seconds and 900 ms after 59.123456 s
time_increment-Later_example :
    let later = time_increment mktime localtime leap_evening (pos 10) 900_000 in
    (time_unix mktime later ≡ pos 70)
    × (later.microsecond + 1_000_000 * 1 ≡ 1_023_456)
    × (later.microsecond ≡ 23_456)
unfolding time_unix tm_of int_of ◌+ℤ◌
time_increment-Later_example =
    time_increment-Later mktime localtime leap_evening (pos 10) 900_000 70 clock-inverse refl
      (omega arith)
