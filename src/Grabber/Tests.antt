-- ===== src/Grabber/Tests.antt =====
-- A short session of the grabber thread; frames are numbers, and so are doubles.
use fast.Prelude.{Bytes, Option, [], codes, false, length, ltb, none, refl, some, true, ℕ, ◌∷◌, ◌≡◌}
use fast.Prelude.Int.{negsuc, pos, ℤ}
use fast.Queue.{Message}
use fast.Storage.{fast_msg_exit, fast_msg_start}
use fast.Time.{time_zero}
use fast.Grabber.{
  Numbers, Worker, grabber_acquisition_start, grabber_acquisition_stop, grabber_worker,
  image_message, process_grabber_command, round, send, stopped_message, worker_loop,
}
use fast.Grabber.Exit.{round-quits}
use fast.Grabber.Countdown.{frames_only, worker_loop-countdown}

abbrev numbers : Numbers
numbers = record {
  Double = ℕ;
  zero_double = 0;
  tenth = 1;
  minus_one = 1000;
  at_least_zero = λ x. ltb x 1000;
  scan_double = λ s. some (length s);
  scan_int = λ s. some (pos (length s));
}

abbrev start : ℤ → Worker ℕ
start countdown = record {
  grabber = record { exposure = 1; fps = 0; amplification = pos 0; binning = pos 1 };
  is_acquisition = true;
  time_start = time_zero;
  countdown = countdown;
  is_first = false;
}

abbrev five : ℕ
five = 5

abbrev six : ℕ
six = 6

abbrev seven : ℕ
seven = 7

abbrev to_grabber : ℕ → Option Bytes → Message Bytes
to_grabber code text = record { event = pos code; content = text; data_delete = none }

set_grabber-values :
    (process_grabber_command numbers {A = ℕ}
      (start (pos 0)).grabber
      (codes "set_grabber exposure=abc binning=1234")).0
    ≡ record { exposure = 3; fps = 0; amplification = pos 0; binning = pos 1 }
unfolding process_grabber_command
set_grabber-values = refl

worker-session :
    (grabber_worker numbers {A = ℕ} (start (pos 0)) (
      (to_grabber fast_msg_start none, some 1, time_zero)
      ∷ (to_grabber fast_msg_exit none, none, time_zero)
      ∷ (to_grabber fast_msg_start none, some 2, time_zero)
      ∷ [])).1
    ≡ grabber_acquisition_stop
      ∷ send (image_message 1)
      ∷ grabber_acquisition_start
      ∷ grabber_acquisition_stop
      ∷ []
unfolding grabber_worker
worker-session = refl

round-quits_example :
    (round numbers (start (pos 1)) (to_grabber fast_msg_exit none) (some seven) time_zero).1 ≡ false
round-quits_example =
    round-quits numbers (start (pos 1)) (to_grabber fast_msg_exit none) (some seven) time_zero

worker_loop-countdown_example :
    worker_loop numbers (start (pos 2)) (frames_only ((five, time_zero) ∷ (six, time_zero) ∷ []))
    ≡ (
      record (start (pos 2)) { countdown = negsuc 0; is_acquisition = false },
      send (image_message five)
          ∷ send (image_message six)
          ∷ send stopped_message
          ∷ grabber_acquisition_stop
          ∷ send stopped_message
          ∷ [],
    )
worker_loop-countdown_example =
    worker_loop-countdown numbers (start (pos 2)) (five, time_zero) ((six, time_zero) ∷ []) refl
      refl
