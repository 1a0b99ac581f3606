-- ===== src/Time/Clock.antt =====
-- time_str.c: times of the system and steps of time. `mktime`, `localtime_r`, `gmtime_r` and
-- `gettimeofday` are parameters. A step is given as its whole seconds and the microseconds of its rest,
-- which the code has as a double.
pub mod Increment
use fast.Prelude.{Bytes, codes, if◌then◌else◌, ltb, suc, zero, ℕ, ◌%◌, ◌++◌, ◌+◌, ◌-◌, ◌^◌}
use fast.Prelude.Int.{negsuc, pos, ℤ, ◌+ℤ◌, ◌-ℤ◌}
use fast.Prelude.Format.{format_padded}
use fast.Time.{TimeStr}
use fast.Time.Parse.{u32_of}

-- `struct tm`; tm_isdst is -1 and tm_gmtoff 0 where the code sets one.
pub record Tm : Type 0 where
  pub tm_sec : ℤ
  pub tm_min : ℤ
  pub tm_hour : ℤ
  pub tm_mday : ℤ
  pub tm_mon : ℤ
  pub tm_year : ℤ

-- a `u_int32_t` that is put into an `int`
unfoldable pub int_of : ℕ → ℤ
int_of n = if ltb n (2 ^ 31) then pos n else negsuc (2 ^ 32 - 1 - n)

unfoldable pub tm_of : TimeStr → Tm
unfolding int_of
tm_of time = record {
  tm_sec = int_of time.second;
  tm_min = int_of time.minute;
  tm_hour = int_of time.hour;
  tm_mday = int_of time.day;
  tm_mon = int_of ((time.month + (2 ^ 32 - 1)) % 2 ^ 32);
  tm_year = int_of ((time.year + (2 ^ 32 - 1900)) % 2 ^ 32);
}

-- The fields of a `struct tm`, and microseconds.
unfoldable pub of_tm : Tm → ℕ → TimeStr
unfolding u32_of
of_tm tm microsecond = record {
  year = u32_of (tm.tm_year +ℤ pos 1900);
  month = u32_of (tm.tm_mon +ℤ pos 1);
  day = u32_of tm.tm_mday;
  hour = u32_of tm.tm_hour;
  minute = u32_of tm.tm_min;
  second = u32_of tm.tm_sec;
  microsecond = microsecond;
}

-- `gettimeofday` gives the seconds and the microseconds.
pub time_current : (ℤ → Tm) → ℤ × ℕ → TimeStr
unfolding of_tm
time_current gmtime (tv_sec, tv_usec) = of_tm (gmtime tv_sec) tv_usec

unfoldable pub time_unix : (Tm → ℤ) → TimeStr → ℤ
unfolding tm_of
time_unix mktime time = mktime (tm_of time)

unfoldable pub time_from_unix : (ℤ → Tm) → ℤ → TimeStr
unfolding of_tm
time_from_unix localtime t = of_tm (localtime t) 0

-- `while(usec_new > 1e6)`: the microseconds that are left, and the seconds that are carried. Each
-- round takes some of the microseconds away, of which the fuel has as many.
pub carry : ℕ → ℕ → ℕ × ℕ
carry zero usec_new = (usec_new, 0)
carry (suc fuel) usec_new =
    let (usec, carried) = carry fuel (usec_new - 1_000_000) in
    if ltb 1_000_000 usec_new then (usec, carried + 1) else (usec_new, 0)

pub time_increment : (Tm → ℤ) → (ℤ → Tm) → TimeStr → ℤ → ℕ → TimeStr
unfolding carry time_unix time_from_unix
time_increment mktime localtime time idelta rest =
    let (usec, carried) = carry (time.microsecond + rest) (time.microsecond + rest) in
    record (time_from_unix localtime (time_unix mktime time +ℤ (idelta +ℤ pos carried))) {
      microsecond = usec;
    }

pub time_incremented : (Tm → ℤ) → (ℤ → Tm) → TimeStr → ℤ → ℕ → TimeStr
unfolding time_increment
time_incremented mktime localtime time idelta rest =
    time_increment mktime localtime time idelta rest

-- `%04d_%02d_%02d` of the local time less twelve hours; `timezone` is what tzset has found.
pub time_str_get_evening_date : (Tm → ℤ) → (ℤ → Tm) → ℤ → TimeStr → Bytes
unfolding time_increment format_padded
time_str_get_evening_date mktime localtime timezone time_in =
    let local = time_increment mktime localtime time_in (pos 0 -ℤ timezone) 0 in
    let time = time_increment mktime localtime local (pos 0 -ℤ pos 43200) 0 in
    format_padded 4 time.year
    ++ (codes "_" ++ (format_padded 2 time.month ++ (codes "_" ++ format_padded 2 time.day)))
