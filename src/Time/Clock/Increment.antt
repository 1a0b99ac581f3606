-- ===== src/Time/Clock/Increment.antt =====
-- What a step of time is.
use fast.Prelude.Int.{pos, ℤ, ◌+ℤ◌}
use fast.Time.{TimeStr}
use fast.Prelude.{
  Bool-cases, ap, arith, if◌then◌else◌, inl, inr, ltb, suc, sym, zero, ℕ, ◌%◌, ◌*◌, ◌+◌, ◌-◌, ◌/◌,
  ◌<◌, ◌==◌, ◌^◌, ◌∙◌, ◌≡◌, ◌≤◌,
}
use fast.Time.Clock.{Tm, carry, time_from_unix, time_increment, time_unix, tm_of}

carry-lem :
    (fuel usec : ℕ)
    → usec ≤ fuel
    → let (left, carried) = carry fuel usec in
      (left + 1_000_000 * carried ≡ usec)
      × (left ≡ (if usec == 0 then 0 else (usec - 1) % 1_000_000 + 1))
unfolding carry
carry-lem zero usec h = (omega arith, ground (arith, h))
carry-lem (suc fuel) usec h =
    let (p, q) = carry-lem fuel (usec - 1_000_000) (omega arith) in
    elim (Bool-cases (ltb 1_000_000 usec)) [
      | inl e ↦ (ground (arith, e, p), ground (arith, e, q))
      | inr e ↦ (ground (arith, e), ground (arith, e))
    ]

-- A step to a time n of the system from the Epoch on, where `mktime` gives back such a time from what
-- `localtime` makes of it, goes to that time: it is as many seconds later as the step has, and as its
-- microseconds make up. The other microseconds stay; where whole seconds are left over they are a
-- million, not 0.
pub time_increment-Later :
    (mktime : Tm → ℤ) (localtime : ℤ → Tm) (time : TimeStr) (idelta : ℤ) (rest n : ℕ)
    → ((t : ℕ) → t < 2 ^ 31 → time_unix mktime (time_from_unix localtime (pos t)) ≡ pos t)
    → time_unix mktime time +ℤ (idelta +ℤ pos ((time.microsecond + rest - 1) / 1_000_000)) ≡ pos n
    → n < 2 ^ 31
    → let later = time_increment mktime localtime time idelta rest in
      let usec = time.microsecond + rest in
      (time_unix mktime later ≡ pos n)
      × (later.microsecond + 1_000_000 * ((usec - 1) / 1_000_000) ≡ usec)
      × (later.microsecond ≡ (if usec == 0 then 0 else (usec - 1) % 1_000_000 + 1))
unfolding time_increment time_unix tm_of
time_increment-Later mktime localtime time idelta rest n inverse exact small =
    let usec = time.microsecond + rest in
    let seconds = (carry usec usec).1 in
    let (p, q) = carry-lem usec usec (omega arith) in
    let same : seconds ≡ (usec - 1) / 1_000_000 = ground (arith, p, q) in
    let there : time_unix mktime time +ℤ (idelta +ℤ pos seconds) ≡ pos n =
      ap (λ s. time_unix mktime time +ℤ (idelta +ℤ pos s)) same ∙ exact in
    (
      ap (λ t. time_unix mktime (time_from_unix localtime t)) there ∙ inverse n small,
      ap (λ s. (carry usec usec).0 + 1_000_000 * s) (sym same) ∙ p,
      q,
    )
