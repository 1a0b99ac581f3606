-- ===== src/Time/Parse.antt =====
-- time_str.c: dates that are read from a text. `scan` is what `sscanf` reads of a text for a row of
-- `%d`: the numbers up to the first that is not one.
pub mod RoundTrip
use fast.Prelude.{
  Bool, Bytes, List, Option, [], get_elem?, get_or, if◌then◌else◌, none, some, ℕ, ◌*◌, ◌++◌, ◌-◌,
  ◌==◌, ◌>>=◌, ◌^◌, ◌||◌, ◌∷◌,
}
use fast.Prelude.Int.{ltb_ℤ, negsuc, pos, ℤ}
use fast.Time.{TimeStr, time_str_from_uuid, time_zero, u32}

-- an `int` that is put into a `u_int32_t`
unfoldable pub u32_of : ℤ → ℕ
u32_of (pos n) = u32 n
u32_of (negsuc n) = 2 ^ 32 - 1 - u32 n

-- "replace all dots with spaces"
unfoldable pub separated : (ℕ → Bool) → Bytes → Bytes
separated is_delimiter [] = []
separated is_delimiter (c ∷ s) = (if is_delimiter c then 32 else c) ∷ separated is_delimiter s

-- the number at a place of the scan; the variables are 0 before it
abbrev pub number_at : List ℤ → ℕ → ℤ
number_at numbers i = get_or numbers i (pos 0)

-- Day, month and year of a text without its delimiters, in the order of its first number: the year is
-- last where the third byte is a space. A text of less than two bytes is read past its end.
unfoldable pub day_month_year : (Bytes → List ℤ) → Bytes → Option (ℤ × ℤ × ℤ)
day_month_year scan tmp = do
  third ← get_elem? (tmp ++ 0 ∷ []) 2
  let numbers = scan tmp
  let year_last = third == 32
  let day = number_at numbers (if year_last then 0 else 2)
  let year = number_at numbers (if year_last then 2 else 0)
  some (
      if ltb_ℤ (pos 31) day
      then (year, number_at numbers 1, day)
      else (day, number_at numbers 1, year))

-- '.', '/' and '-'
abbrev pub date_delimiter : ℕ → Bool
date_delimiter c = (c == 46) || (c == 47) || (c == 45)

unfoldable pub time_str_set_date : (Bytes → List ℤ) → TimeStr → Bytes → Option TimeStr
unfolding separated day_month_year u32_of
time_str_set_date scan time string = do
  (day, month, year) ← day_month_year scan (separated date_delimiter string)
  some (record time { year = u32_of year; month = u32_of month; day = u32_of day })

-- '.', ':' and '-'
abbrev pub time_delimiter : ℕ → Bool
time_delimiter c = (c == 46) || (c == 58) || (c == 45)

pub time_str_from_date_time : (Bytes → List ℤ) → Option Bytes → Option TimeStr
unfolding separated day_month_year u32_of
time_str_from_date_time scan none = some time_zero
time_str_from_date_time scan (some string) = do
  let tmp = separated time_delimiter string
  (day, month, year) ← day_month_year scan tmp
  some (record {
    year = u32_of year;
    month = u32_of month;
    day = u32_of day;
    hour = u32_of (number_at (scan tmp) 3);
    minute = u32_of (number_at (scan tmp) 4);
    second = u32_of (number_at (scan tmp) 5);
    microsecond = u32 (u32_of (number_at (scan tmp) 6) * 1000);
  })

-- `scan` reads numbers of four, two, two, an underscore, and two, two and two digits; a field that is
-- not read stays as it is.
pub time_str_from_filename : (Bytes → List ℤ) → Bytes → TimeStr
unfolding u32_of
time_str_from_filename scan filename =
    let field : ℕ → ℕ → ℕ =
      λ i before. elim (get_elem? (scan filename) i) [ none ↦ before | some n ↦ u32_of n ] in
    record {
      year = field 0 1900;
      month = field 1 1;
      day = field 2 1;
      hour = field 3 0;
      minute = field 4 0;
      second = field 5 0;
      microsecond = 0;
    }

-- `scan` is what `%017lld` reads.
pub time_str_from_uuid_string : (Bytes → Option ℕ) → Bytes → TimeStr
unfolding time_str_from_uuid
time_str_from_uuid_string scan string = elim (scan string) [
  | none ↦ time_str_from_uuid 0
  | some uuid ↦ time_str_from_uuid uuid
]
