-- ===== src/Time/Uuid.antt =====
-- The frame identifier YYYYMMDDHHMMSSMMM of a time.
use fast.Prelude.{arith, ◌*◌, ◌+◌, ◌/◌, ◌<◌, ◌≡◌}
use fast.Time.{TimeStr, time_str_from_uuid, time_str_get_uuid}

-- Each field has the digits that the identifier gives it.
pub record HasDigits (t : TimeStr) : Type 0 where
  pub year_digits : t.year < 10000
  pub month_digits : t.month < 100
  pub day_digits : t.day < 100
  pub hour_digits : t.hour < 100
  pub minute_digits : t.minute < 100
  pub second_digits : t.second < 100
  pub microsecond_digits : t.microsecond < 1_000_000

-- Without wrapping, the identifier is the decimal number of its fields.
pub uuid_digits :
    (t : TimeStr)
    → HasDigits t
    → time_str_get_uuid t
      ≡ (((((t.year * 100 + t.month) * 100 + t.day) * 100 + t.hour) * 100 + t.minute) * 100
            + t.second)
          * 1000
        + t.microsecond / 1000
unfolding time_str_get_uuid
uuid_digits t h = omega arith

-- A time is read back from its identifier to the millisecond.
pub from_uuid-get_uuid :
    (t : TimeStr)
    → HasDigits t
    → time_str_from_uuid (time_str_get_uuid t)
      ≡ record t { microsecond = 1000 * (t.microsecond / 1000) }
unfolding time_str_from_uuid
from_uuid-get_uuid t h = ground (arith, uuid_digits t h)
