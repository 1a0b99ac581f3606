-- ===== src/Server/Timer/Check.antt =====
-- The timers that a check fires, and the counts of timers.
use fast.Prelude.{
  Bool, List, Option, [], append-nil, append_assoc, arith, false, if◌then◌else◌, none, not, refl,
  some, true, ℕ, ◌&&◌, ◌++◌, ◌+◌, ◌==◌, ◌∷◌, ◌≡◌,
}
use fast.Time.{TimeStr}
use fast.Server.Timer.{
  Timer, check_timers, server_add_timer, server_check_timers, server_kill_timers_with_type,
  server_number_of_timers_with_type,
}

module _ {Seconds : Type 0} where
  abbrev pub select : (Timer Seconds → Bool) → List (Timer Seconds) → List (Timer Seconds)
  select p [] = []
  select p (t ∷ ts) = if p t then t ∷ select p ts else select p ts

  abbrev pub has_callback : Timer Seconds → Bool
  has_callback t = elim t.callback [ none ↦ false | some f ↦ true ]

  -- the timers that the callbacks add, newest first
  abbrev pub started :
      (Timer Seconds → List (Timer Seconds)) → List (Timer Seconds) → List (Timer Seconds)
  started starts [] = []
  started starts (t ∷ ts) = started starts ts ++ starts t

  check_timers-select :
      (due : TimeStr → TimeStr → Bool) (starts : Timer Seconds → List (Timer Seconds))
      (added ts : List (Timer Seconds)) (now : TimeStr)
      → let fired = select (λ t. due t.time now && has_callback t) ts in
        check_timers due starts added ts now
        ≡ (started starts fired ++ added, select (λ t. not (due t.time now)) ts, fired)
  unfolding check_timers
  check_timers-select due starts added [] now = refl
  check_timers-select due starts added (t ∷ ts) now = ground (
    arith,
    check_timers-select due starts (starts t ++ added) ts now,
    check_timers-select due starts added ts now,
    append_assoc (started starts (select (λ t. due t.time now && has_callback t) ts)) (starts t)
        added,
  )

  -- A check calls the callback of each timer whose time has come, once and in the order of the
  -- list; those timers are gone, the others stay in their order, and the timers that the callbacks
  -- added, and that the same check does not fire, are in front of them.
  pub check_timers-fires :
      (due : TimeStr → TimeStr → Bool) (starts : Timer Seconds → List (Timer Seconds))
      (ts : List (Timer Seconds)) (now : TimeStr)
      → let fired = select (λ t. due t.time now && has_callback t) ts in
        server_check_timers due starts ts now
        ≡ (started starts fired ++ select (λ t. not (due t.time now)) ts, fired)
  unfolding server_check_timers
  check_timers-fires due starts ts now = rw (check_timers-select due starts [] ts now, append-nil)

  number-kill :
      (us : List (Timer Seconds)) (a b : ℕ)
      → server_number_of_timers_with_type (server_kill_timers_with_type us a) b
        ≡ (if a == b then 0 else server_number_of_timers_with_type us b)
  unfolding server_number_of_timers_with_type server_kill_timers_with_type
  number-kill [] a b = ground arith
  number-kill (u ∷ us) a b = ground (arith, number-kill us a b)

  -- How many timers of each type there are after one is added, and after those of a type are
  -- killed.
  pub number_of_timers_lem :
      (ts : List (Timer Seconds)) (interval : Seconds) (a b : ℕ) (callback : Option ℕ) (content : ℕ)
      (expiry : TimeStr)
      → (server_number_of_timers_with_type
            (server_add_timer ts interval a callback content expiry)
            b
          ≡ server_number_of_timers_with_type ts b + (if a == b then 1 else 0))
        × (server_number_of_timers_with_type (server_kill_timers_with_type ts a) b
            ≡ (if a == b then 0 else server_number_of_timers_with_type ts b))
  unfolding server_number_of_timers_with_type server_add_timer
  number_of_timers_lem ts interval a b callback content expiry = (ground arith, number-kill ts a b)
