-- ===== src/Time.antt =====
-- time_str.c: the broken-down time that stamps each frame. Here are the parts that work on whole
-- numbers; of the Julian date these are the whole days.
pub mod Uuid
pub mod Morning
pub mod Text
pub mod Julian
pub mod Parse
pub mod Clock
mod Tests
use fast.Prelude.{
  Bool, [], get_or, if◌then◌else◌, ltb, not, ℕ, ◌%◌, ◌&&◌, ◌*◌, ◌+◌, ◌-◌, ◌/◌, ◌==◌, ◌^◌, ◌||◌, ◌∷◌,
}

-- `time_str`: seven `u_int32_t`.
pub record TimeStr : Type 0 where
  pub year : ℕ
  pub month : ℕ
  pub day : ℕ
  pub hour : ℕ
  pub minute : ℕ
  pub second : ℕ
  pub microsecond : ℕ

abbrev pub u32 : ℕ → ℕ
u32 n = n % 2 ^ 32

abbrev pub u64 : ℕ → ℕ
u64 n = n % 2 ^ 64

abbrev pub time_zero : TimeStr
time_zero = record {
  year = 1900;
  month = 1;
  day = 1;
  hour = 0;
  minute = 0;
  second = 0;
  microsecond = 0;
}

-- The arguments are `int`s from 0 on.
unfoldable pub time_make : (year month day hour minute second microsecond : ℕ) → TimeStr
time_make year month day hour minute second microsecond = record {
  year = u32 year;
  month = u32 month;
  day = u32 day;
  hour = u32 hour;
  minute = u32 minute;
  second = u32 second;
  microsecond = u32 microsecond;
}

-- YYYYMMDDHHMMSSMMM, in `u_int64_t` arithmetic
pub time_str_get_uuid : TimeStr → ℕ
time_str_get_uuid t =
    let r1 = u64 (u64 (0 * 1000) + t.year) in
    let r2 = u64 (u64 (r1 * 100) + t.month) in
    let r3 = u64 (u64 (r2 * 100) + t.day) in
    let r4 = u64 (u64 (r3 * 100) + t.hour) in
    let r5 = u64 (u64 (r4 * 100) + t.minute) in
    let r6 = u64 (u64 (r5 * 100) + t.second) in u64 (u64 (r6 * 1000) + t.microsecond / 1000)

pub time_str_from_uuid : ℕ → TimeStr
time_str_from_uuid uuid =
    let u1 = uuid / 1000 in
    let u2 = u1 / 100 in
    let u3 = u2 / 100 in
    let u4 = u3 / 100 in
    let u5 = u4 / 100 in
    let u6 = u5 / 100 in
    record {
      year = u6 % 10000;
      month = u5 % 100;
      day = u4 % 100;
      hour = u3 % 100;
      minute = u2 % 100;
      second = u1 % 100;
      microsecond = 1000 * (uuid % 1000);
    }

-- `days_in_months[month - 1]`, for a month from 1 to 12
pub days_in_months : ℕ → ℕ
days_in_months month =
    get_or (31 ∷ 28 ∷ 31 ∷ 30 ∷ 31 ∷ 30 ∷ 31 ∷ 31 ∷ 30 ∷ 31 ∷ 30 ∷ 31 ∷ []) (month - 1) 0

abbrev pub is_leap : ℕ → Bool
is_leap year = (year % 4 == 0) && (not (year % 100 == 0) || (year % 400 == 0))

-- "Returns time of the end of observations"; `MORNING_TIME_HOUR` (setup.h) is 2. The day is below
-- 2^32 - 1 and the year too, so that nothing wraps.
pub time_str_get_morning_time : TimeStr → TimeStr
time_str_get_morning_time t =
    let day = if ltb 12 t.hour then t.day + 1 else t.day in
    let over = ltb (days_in_months t.month) day in
    let month = if ltb t.month 11 then t.month + 1 else 1 in
    let year = if ltb t.month 11 then t.year else t.year + 1 in
    let leap_day = (month == 3) && ((day == 29) && is_leap year) in
    record {
      year = if over then year else t.year;
      month = if over then (if leap_day then 2 else month) else t.month;
      day = if over then (if leap_day then 29 else 1) else day;
      hour = 2;
      minute = 0;
      second = 0;
      microsecond = 0;
    }
