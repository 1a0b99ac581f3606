-- ===== src/Time/Parse/RoundTrip.antt =====
-- The text of a time is read back as that time.
use fast.Prelude.{
  All, Bool, Bool-cases, Bytes, List, [], ap, ap₂, arith, codes, false, get_elem?, if◌then◌else◌,
  inl, inr, length, length-append, length-replicate, ltb, refl, replicate, some, subst, suc, sym,
  true, zero, ℕ, ◌%◌, ◌*◌, ◌++◌, ◌+◌, ◌-◌, ◌/◌, ◌<◌, ◌==◌, ◌∙◌, ◌∷◌, ◌≡◌, ◌≤◌,
}
use fast.Prelude.Int.{pos, ℤ}
use fast.Prelude.Format.{decimal, format_padded}
use fast.Time.{TimeStr, u32}
use fast.Time.Text.{time_str_get_date, time_str_get_date_time, time_str_get_time}
use fast.Time.Uuid.{HasDigits}
use fast.Time.Parse.{day_month_year, separated, time_delimiter, time_str_from_date_time, u32_of}

abbrev IsDigit : ℕ → Type 0
IsDigit c = (48 ≤ c) × (c ≤ 57)

All-append : (a b : Bytes) → All IsDigit a → All IsDigit b → All IsDigit (a ++ b)
All-append [] b h k = k
All-append (c ∷ a) b (h, l) k = (h, All-append a b l k)

decimal-IsDigit : (f n : ℕ) → All IsDigit (decimal f n)
unfolding decimal
decimal-IsDigit zero n = tt
decimal-IsDigit (suc f) n = elim (Bool-cases (ltb n 10)) [
  | inl e ↦
      let one : decimal (suc f) n ≡ (48 + n) ∷ [] = ground (arith, e) in
      subst (All IsDigit) (sym one) ((omega arith, ground (arith, e)), tt)
  | inr e ↦
      let more : decimal (suc f) n ≡ decimal f (n / 10) ++ ((48 + n % 10) ∷ []) =
        ground (arith, e) in
      subst (All IsDigit) (sym more) (
        All-append (decimal f (n / 10)) ((48 + n % 10) ∷ []) (decimal-IsDigit f (n / 10))
          ((omega arith, omega arith), tt))
]

replicate-IsDigit : (n : ℕ) → All IsDigit (replicate n 48)
replicate-IsDigit zero = tt
replicate-IsDigit (suc n) = ((omega arith, omega arith), replicate-IsDigit n)

format_padded-IsDigit : (width n : ℕ) → All IsDigit (format_padded width n)
unfolding format_padded
format_padded-IsDigit width n =
    All-append (replicate (width - length (decimal 10 n)) 48) (decimal 10 n)
      (replicate-IsDigit (width - length (decimal 10 n))) (decimal-IsDigit 10 n)

length-format_padded : (width n : ℕ) → width ≤ length (format_padded width n)
unfolding format_padded
length-format_padded width n =
    let s = decimal 10 n in
    omega (
      arith,
      length-append (replicate (width - length s) 48) s,
      length-replicate {A = ℕ} (width - length s) 48,
    )

separated-append :
    (f : ℕ → Bool) (a b : Bytes) → separated f (a ++ b) ≡ separated f a ++ separated f b
unfolding separated
separated-append f [] b = refl
separated-append f (c ∷ a) b = ap (λ s. (if f c then 32 else c) ∷ s) (separated-append f a b)

separated-digits : (a : Bytes) → All IsDigit a → separated time_delimiter a ≡ a
unfolding separated
separated-digits [] h = refl
separated-digits (c ∷ a) ((h, k), l) =
    ap₂ (λ d s. d ∷ s) (ground (arith, h, k)) (separated-digits a l)

get_elem?-append : (a b : Bytes) (i c : ℕ) → get_elem? a i ≡ some c → get_elem? (a ++ b) i ≡ some c
get_elem?-append [] b i c h = absurd (ground (arith, h))
get_elem?-append (d ∷ a) b zero c h = h
get_elem?-append (d ∷ a) b (suc i) c h = get_elem?-append a b i c h

digit_at :
    (a : Bytes) (i : ℕ)
    → All IsDigit a
    → i < length a
    → (c : ℕ) × (get_elem? a i ≡ some c) × ((c == 32) ≡ false)
digit_at [] i h l = absurd (omega arith)
digit_at (c ∷ a) zero ((h, k), m) l = (c, refl, ground (arith, h))
digit_at (c ∷ a) (suc i) (h, m) l = digit_at a i m (omega (arith, l))

-- a number of the text and what comes behind it
abbrev field : ℕ → ℕ → Bytes → Bytes
field width n rest = format_padded width n ++ rest

separated-field :
    (width n c : ℕ) (rest rest' : Bytes)
    → time_delimiter c ≡ true
    → separated time_delimiter rest ≡ rest'
    → separated time_delimiter (field width n (c ∷ rest)) ≡ field width n (32 ∷ rest')
unfolding separated
separated-field width n c rest rest' h e =
    separated-append time_delimiter (format_padded width n) (c ∷ rest)
    ∙ ap₂ (λ a b. a ++ b) (separated-digits (format_padded width n) (format_padded-IsDigit width n))
        (ground (arith, h, e))

-- The text with spaces between its numbers.
unfoldable pub spaced_date : TimeStr → Bytes
spaced_date t =
    format_padded 4 t.year
    ++ (codes " " ++ (format_padded 2 t.month ++ (codes " " ++ format_padded 2 t.day)))

unfoldable pub spaced_time : TimeStr → Bytes
spaced_time t =
    format_padded 2 t.hour
    ++ (codes " "
        ++ (format_padded 2 t.minute
            ++ (codes " "
                ++ (format_padded 2 t.second
                    ++ (codes " " ++ format_padded 3 (t.microsecond / 1000))))))

separated-date : (t : TimeStr) → separated time_delimiter (time_str_get_date t) ≡ spaced_date t
unfolding time_str_get_date spaced_date
separated-date t = separated-field 4 t.year 46 _ _ refl (
    separated-field 2 t.month 46 _ _ refl
      (separated-digits (format_padded 2 t.day) (format_padded-IsDigit 2 t.day)))

separated-time : (t : TimeStr) → separated time_delimiter (time_str_get_time t) ≡ spaced_time t
unfolding time_str_get_time spaced_time
separated-time t = separated-field 2 t.hour 58 _ _ refl (
    separated-field 2 t.minute 58 _ _ refl (
      separated-field 2 t.second 46 _ _ refl (
        separated-digits (format_padded 3 (t.microsecond / 1000))
          (format_padded-IsDigit 3 (t.microsecond / 1000)))))

abbrev pub spaced : TimeStr → Bytes
spaced t = spaced_date t ++ (codes " " ++ spaced_time t)

separated-date_time : (t : TimeStr) → separated time_delimiter (time_str_get_date_time t) ≡ spaced t
unfolding time_str_get_date_time separated
separated-date_time t =
    separated-append time_delimiter (time_str_get_date t) (codes " " ++ time_str_get_time t)
    ∙ ap₂ (λ a b. a ++ (32 ∷ b)) (separated-date t) (separated-time t)

third_byte :
    (t : TimeStr) → (c : ℕ) × (get_elem? (spaced t ++ 0 ∷ []) 2 ≡ some c) × ((c == 32) ≡ false)
unfolding spaced_date
third_byte t =
    let (c, e, h) =
      digit_at (format_padded 4 t.year) 2 (format_padded-IsDigit 4 t.year)
        (omega (arith, length-format_padded 4 t.year)) in
    (
      c,
      get_elem?-append (spaced t) (0 ∷ []) 2 c (
          get_elem?-append (spaced_date t) (codes " " ++ spaced_time t) 2 c (
            get_elem?-append (format_padded 4 t.year)
              (codes " " ++ (format_padded 2 t.month ++ (codes " " ++ format_padded 2 t.day))) 2 c
              e)),
      h,
    )

read_date :
    (scan : Bytes → List ℤ) (tmp : Bytes) (c year month day : ℕ) (rest : List ℤ)
    → get_elem? (tmp ++ 0 ∷ []) 2 ≡ some c
    → (c == 32) ≡ false
    → day ≤ 31
    → scan tmp ≡ pos year ∷ pos month ∷ pos day ∷ rest
    → day_month_year scan tmp ≡ some (pos day, pos month, pos year)
unfolding day_month_year
read_date scan tmp c year month day rest e h k numbers = ground (arith, e, h, k, numbers)

u32_small : (n : ℕ) → n < 1_000_000 → u32_of (pos n) ≡ n
unfolding u32_of
u32_small n h = omega arith

-- The text of a time whose day is 31 at most is read back to the millisecond, where `sscanf` reads its
-- numbers from the text with spaces between them.
pub from_date_time-get_date_time :
    (scan : Bytes → List ℤ) (t : TimeStr)
    → HasDigits t
    → t.day ≤ 31
    → scan (spaced t)
      ≡ pos t.year
        ∷ pos t.month
        ∷ pos t.day
        ∷ pos t.hour
        ∷ pos t.minute
        ∷ pos t.second
        ∷ pos (t.microsecond / 1000)
        ∷ []
    → time_str_from_date_time scan (some (time_str_get_date_time t))
      ≡ some (record t { microsecond = t.microsecond / 1000 * 1000 })
unfolding time_str_from_date_time day_month_year u32_of
from_date_time-get_date_time scan t digits day numbers =
    let (c, e, h) = third_byte t in
    let tmp = spaced t in
    let date : day_month_year scan tmp ≡ some (pos t.day, pos t.month, pos t.year) =
      read_date scan tmp c t.year t.month t.day
        (pos t.hour ∷ pos t.minute ∷ pos t.second ∷ pos (t.microsecond / 1000) ∷ []) e h day
        numbers in
    let same = separated-date_time t in
    let y = u32_small t.year (omega (arith, digits.year_digits)) in
    let m = u32_small t.month (omega (arith, digits.month_digits)) in
    let d = u32_small t.day (omega (arith, digits.day_digits)) in
    let hour = u32_small t.hour (omega (arith, digits.hour_digits)) in
    let minute = u32_small t.minute (omega (arith, digits.minute_digits)) in
    let second = u32_small t.second (omega (arith, digits.second_digits)) in
    let ms = u32_small (t.microsecond / 1000) (omega (arith, digits.microsecond_digits)) in
    let us : u32 (u32_of (pos (t.microsecond / 1000)) * 1000) ≡ t.microsecond / 1000 * 1000 =
      omega (arith, ms, digits.microsecond_digits) in
    cc (same, date, numbers, y, m, d, hour, minute, second, us)
