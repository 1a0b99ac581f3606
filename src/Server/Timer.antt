-- ===== src/Server/Timer.antt =====
-- server.c: the timers of the server. `add_to_list` puts a new timer in front. A timer's callback
-- and its data are named by numbers.
pub mod Check
use fast.Prelude.{Bool, List, Option, [], false, if◌then◌else◌, none, some, ℕ, ◌++◌, ◌+◌, ◌==◌, ◌∷◌}
use fast.Time.{TimeStr}

-- `timer_str`; `Seconds` is the double of its interval.
pub record Timer (Seconds : Type 0) : Type 0 where
  pub type_code : ℕ
  pub interval : Seconds
  pub time : TimeStr
  pub callback : Option ℕ
  pub callback_data : ℕ

module _ {Seconds : Type 0} where
  -- `expiry` is the current time after `time_increment` by the interval.
  pub server_add_timer :
      List (Timer Seconds) → Seconds → ℕ → Option ℕ → ℕ → TimeStr → List (Timer Seconds)
  server_add_timer timers interval type_code callback callback_data expiry =
      record {
        type_code = type_code;
        interval = interval;
        time = expiry;
        callback = callback;
        callback_data = callback_data;
      }
      ∷ timers

  pub server_kill_timers_with_type : List (Timer Seconds) → ℕ → List (Timer Seconds)
  server_kill_timers_with_type [] type_code = []
  server_kill_timers_with_type (t ∷ ts) type_code =
      let rest = server_kill_timers_with_type ts type_code in
      if t.type_code == type_code then rest else t ∷ rest

  unfoldable pub server_kill_timers_with_data : List (Timer Seconds) → ℕ → List (Timer Seconds)
  server_kill_timers_with_data [] content = []
  server_kill_timers_with_data (t ∷ ts) content =
      let rest = server_kill_timers_with_data ts content in
      if t.callback_data == content then rest else t ∷ rest

  pub server_number_of_timers_with_type : List (Timer Seconds) → ℕ → ℕ
  server_number_of_timers_with_type [] type_code = 0
  server_number_of_timers_with_type (t ∷ ts) type_code =
      let rest = server_number_of_timers_with_type ts type_code in
      if t.type_code == type_code then rest + 1 else rest

  -- The walk of `server_check_timers`. `due time now` stands for `time_interval(now, time) < 0`, in
  -- double precision, and `starts` for the timers that a timer's callback adds, newest first, which
  -- come in front of the list and are not met by the walk. No callback kills a timer. The result is
  -- the timers that were added, those of the walk that are left, and those whose callback ran.
  pub check_timers :
      (TimeStr → TimeStr → Bool)
      → (Timer Seconds → List (Timer Seconds))
      → List (Timer Seconds)
      → List (Timer Seconds)
      → TimeStr
      → List (Timer Seconds) × List (Timer Seconds) × List (Timer Seconds)
  check_timers due starts added [] now = (added, [], [])
  check_timers due starts added (t ∷ ts) now =
      let fires : Bool = due t.time now in
      let called : Bool = elim t.callback [ none ↦ false | some f ↦ fires ] in
      let (all', left, ran) =
        check_timers due starts ((if called then starts t else []) ++ added) ts now in
      (all', (if fires then left else t ∷ left), (if called then t ∷ ran else ran))

  pub server_check_timers :
      (TimeStr → TimeStr → Bool)
      → (Timer Seconds → List (Timer Seconds))
      → List (Timer Seconds)
      → TimeStr
      → List (Timer Seconds) × List (Timer Seconds)
  unfolding check_timers
  server_check_timers due starts ts now =
      let (added, left, ran) = check_timers due starts [] ts now in (added ++ left, ran)
